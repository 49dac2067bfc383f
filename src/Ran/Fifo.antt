-- ===== src/Ran/Fifo.antt =====
-- The receive queues of src/ue_engine/ue_ran_transport.c as lists, the oldest entry first.
use virtuallte.Common.{
  ℕ, zero, suc, ◌+◌, ◌-◌, ◌%◌, ◌≤◌, ◌<◌, ◌≡◌, refl, ap, sym, ◌∙◌, true, false, ◌==◌, Option, none,
  some, List, [], ◌∷◌, ◌++◌, length, get_or, set, length-set, get_or-set, get_or-set_other, ◌≢◌,
  arith, Bool-cases, inl, inr, if◌then◌else◌,
}
use virtuallte.Ran.State.{RxEntry, no_entry, RxQueue}
use virtuallte.Ran.Queue.{rx_queue_full, rx_queue_empty, rx_queue_push, rx_queue_peek, rx_queue_pop}

pub record IsQueue (q : RxQueue) : Type 0 where
  pub size : length q.slots ≡ 32
  pub head_below : q.head < 32
  pub tail_below : q.tail < 32

abbrev pub count : RxQueue → ℕ
count q = (q.tail + 32 - q.head) % 32

-- The `n` entries from index `i` on, round the end of the array.
abbrev pub window : List RxEntry → ℕ → ℕ → List RxEntry
window slots zero i = []
window slots (suc n) i = get_or slots i no_entry ∷ window slots n ((i + 1) % 32)

abbrev pub contents : RxQueue → List RxEntry
contents q = window q.slots (count q) q.head

length-window : (slots : List RxEntry) (n i : ℕ) → length (window slots n i) ≡ n
length-window slots zero i = refl
length-window slots (suc n) i = ap suc (length-window slots n ((i + 1) % 32))

window-set :
    (slots : List RxEntry) (n i k : ℕ) (v : RxEntry)
    → i < 32
    → k < 32
    → n ≤ (k + 32 - i) % 32
    → window (set slots k v) n i ≡ window slots n i
window-set slots zero i k v hi hk far = refl
window-set slots (suc n) i k v hi hk far =
    let apart : k ≢ i = ground arith in
    rw
      (
        get_or-set_other slots k i v no_entry apart,
        window-set slots n ((i + 1) % 32) k v (omega arith) hk (omega arith),
      )
      refl

window-snoc :
    (slots : List RxEntry) (n i : ℕ)
    → i < 32
    → window slots (suc n) i ≡ window slots n i ++ (get_or slots ((i + n) % 32) no_entry ∷ [])
window-snoc slots zero i hi = ap (λ k. get_or slots k no_entry ∷ []) (omega arith)
window-snoc slots (suc n) i hi =
    ap (λ (t : List RxEntry). get_or slots i no_entry ∷ t)
      (window-snoc slots n ((i + 1) % 32) (omega arith)
        ∙ ap (λ k. window slots n ((i + 1) % 32) ++ (get_or slots k no_entry ∷ [])) (omega arith))

push_size :
    (head tail : ℕ)
    → head < 32
    → tail < 32
    → rx_queue_full head tail ≡ false
    → ((tail + 1) % 32 + 32 - head) % 32 ≡ suc ((tail + 32 - head) % 32)
push_size head tail hh ht room = ground arith

-- A queue that is not full takes an entry behind the others.
pub contents-push :
    (q : RxQueue) (e : RxEntry)
    → IsQueue q
    → rx_queue_full q.head q.tail ≡ false
    → contents (rx_queue_push q e) ≡ contents q ++ (e ∷ [])
unfolding rx_queue_push
contents-push q e h room =
    let n = count q in
    let size : ((q.tail + 1) % 32 + 32 - q.head) % 32 ≡ suc n =
      push_size q.head q.tail h.head_below h.tail_below room in
    let end : (q.head + n) % 32 ≡ q.tail = omega (arith, h.head_below, h.tail_below) in
    ap (λ k. window (set q.slots q.tail e) k q.head) size
    ∙ (window-snoc (set q.slots q.tail e) n q.head h.head_below
        ∙ rw
            (
              window-set q.slots n q.head q.tail e h.head_below h.tail_below (omega arith),
              end,
              get_or-set q.slots q.tail e no_entry (omega (arith, h.size, h.tail_below)),
            )
            refl)

pub push-IsQueue : (q : RxQueue) (e : RxEntry) → IsQueue q → IsQueue (rx_queue_push q e)
unfolding rx_queue_push
push-IsQueue q e h = record {
  size = length-set q.slots q.tail e ∙ h.size;
  head_below = h.head_below;
  tail_below = omega arith;
}

pub pop-IsQueue : (q : RxQueue) → IsQueue q → IsQueue (rx_queue_pop q)
unfolding rx_queue_pop
pop-IsQueue q h = record { size = h.size; head_below = omega arith; tail_below = h.tail_below }

-- The view of what a list shows at its front.
abbrev pub front : List RxEntry → Option RxEntry
front [] = none
front (e ∷ es) = some e

abbrev pub behind : List RxEntry → List RxEntry
behind [] = []
behind (e ∷ es) = es

abbrev pub front_of : RxQueue → ℕ → Option RxEntry
front_of q n = front (window q.slots n q.head)

pub peek-contents : (q : RxQueue) → IsQueue q → rx_queue_peek q ≡ front (contents q)
unfolding rx_queue_peek
peek-contents q h = elim (Bool-cases (q.head == q.tail)) [
  | inl empty ↦
      let none_left : count q ≡ 0 = ground (arith, h.head_below, h.tail_below) in
      rw (empty, none_left) refl
  | inr some_left ↦
      let more : count q ≡ suc (count q - 1) = ground (arith, h.head_below, h.tail_below) in
      rw some_left (ap (front_of q) (sym more))
]

pub contents-pop :
    (q : RxQueue) → IsQueue q → q.head ≢ q.tail → contents (rx_queue_pop q) ≡ behind (contents q)
unfolding rx_queue_pop
contents-pop q h some_left =
    let n = count q - 1 in
    let more : count q ≡ suc n = omega (arith, h.head_below, h.tail_below, some_left) in
    let fewer : (q.tail + 32 - (q.head + 1) % 32) % 32 ≡ n =
      omega (arith, h.head_below, h.tail_below, some_left) in
    ap (λ k. window q.slots k ((q.head + 1) % 32)) fewer
    ∙ ap (λ k. behind (window q.slots k q.head)) (sym more)

pub length-contents : (q : RxQueue) → length (contents q) ≡ count q
length-contents q = length-window q.slots (count q) q.head

-- The queue as the callers use it: an entry for a full queue is dropped, an empty one is left alone.
abbrev pub put_last : RxQueue → RxEntry → RxQueue
put_last q e = if rx_queue_full q.head q.tail then q else rx_queue_push q e

abbrev pub drop_front : RxQueue → RxQueue
drop_front q = if rx_queue_empty q.head q.tail then q else rx_queue_pop q

pub contents-put_last :
    (q : RxQueue) (e : RxEntry)
    → IsQueue q
    → contents (put_last q e)
      ≡ (if length (contents q) == 31 then contents q else contents q ++ (e ∷ []))
contents-put_last q e h = elim (Bool-cases (rx_queue_full q.head q.tail)) [
  | inl full ↦
      let all : (length (contents q) == 31) ≡ true =
        ground (arith, length-contents q, h.head_below, h.tail_below) in
      rw (full, all) refl
  | inr room ↦
      let less : (length (contents q) == 31) ≡ false =
        ground (arith, length-contents q, h.head_below, h.tail_below) in
      rw (room, less) (contents-push q e h room)
]

contents-drop_front : (q : RxQueue) → IsQueue q → contents (drop_front q) ≡ behind (contents q)
contents-drop_front q h = elim (Bool-cases (rx_queue_empty q.head q.tail)) [
  | inl empty ↦
      let none_left : count q ≡ 0 = ground (arith, h.head_below, h.tail_below) in
      rw (empty, none_left) refl
  | inr some_left ↦ rw some_left (contents-pop q h (ground arith))
]

-- A well-formed queue is a list of at most 31 entries: an entry that is offered goes to its end, or
-- is dropped if it has 31; what is seen at its front is its oldest entry, and that is the one taken.
pub queue-Refines :
    (q : RxQueue) (e : RxEntry)
    → IsQueue q
    → (length (contents q) ≤ 31)
      × (contents (put_last q e)
          ≡ (if length (contents q) == 31 then contents q else contents q ++ (e ∷ [])))
      × (rx_queue_peek q ≡ front (contents q))
      × (contents (drop_front q) ≡ behind (contents q))
queue-Refines q e h = (
  omega (arith, length-contents q),
  contents-put_last q e h,
  peek-contents q h,
  contents-drop_front q h,
)
