-- ===== src/Ran/Queue.antt =====
-- The queue helpers of src/ue_engine/ue_ran_transport.c.
use virtuallte.Common.{ℕ, ◌+◌, ◌%◌, Bool, ◌==◌, if◌then◌else◌, Option, none, some, get_or, set}
use virtuallte.Ran.State.{RxEntry, no_entry, RxQueue, rx_queue_size}

abbrev pub rx_queue_full : ℕ → ℕ → Bool
rx_queue_full head tail = (tail + 1) % rx_queue_size == head

abbrev pub rx_queue_empty : ℕ → ℕ → Bool
rx_queue_empty head tail = head == tail

-- `entry` is what the caller writes to the entry that the source returns.
unfoldable pub rx_queue_push : RxQueue → RxEntry → RxQueue
rx_queue_push q entry = record q {
  slots = set q.slots q.tail entry;
  tail = (q.tail + 1) % rx_queue_size;
}

unfoldable pub rx_queue_peek : RxQueue → Option RxEntry
rx_queue_peek q =
    if rx_queue_empty q.head q.tail then none else some (get_or q.slots q.head no_entry)

unfoldable pub rx_queue_pop : RxQueue → RxQueue
rx_queue_pop q = record q { head = (q.head + 1) % rx_queue_size }
