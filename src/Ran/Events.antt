-- ===== src/Ran/Events.antt =====
-- The calls on the transport of src/ue_engine/ue_ran_transport.c, in any order.
use virtuallte.Common.{
  ℕ, ◌<◌, refl, Bool, false, leb, List, [], ◌∷◌, length, length-append, take, arith, Bool-cases,
  inl, inr, if_both, option_both, CString, copy_string,
}
use virtuallte.Ran.State.{GnbEndpoint, RxQueue, Transport, max_gnb}
use virtuallte.Ran.Queue.{rx_queue_peek}
use virtuallte.Ran.Cells.{best_from}
use virtuallte.Ran.Control.{
  cleared, no_queue, add_gnb, add_gnbs, configure, recv_nas_pdu, recv_data_pdu, or_default_port,
  emptied,
}
use virtuallte.Ran.Fifo.{IsQueue, pop-IsQueue}
use virtuallte.Ran.Invariant.{IsValid}
use virtuallte.Ran.Traffic.{with_queues}

pub cleared-IsValid : IsValid false cleared
unfolding best_from
cleared-IsValid =
    let empty : IsQueue no_queue = record {
      size = refl;
      head_below = omega arith;
      tail_below = omega arith;
    } in
    record {
      table_size = refl;
      counted = refl;
      serving_best = refl;
      nas_queue = empty;
      data_queue = empty;
      acks_bounded = omega arith;
      gnbs_bounded = omega arith;
      open_unless_idle = refl;
      as_opened = refl;
    }

-- What a call that answers leaves is valid.
abbrev pub Left {ℓ} : {A : Type ℓ} → Bool → Transport × A → Type 0
Left opened s = IsValid opened s.0

-- It is valid, with the socket open or closed.
abbrev pub Opened : Transport → Type 0
Opened t = (opened : Bool) × IsValid opened t

pub add_gnb-IsValid :
    {opened : Bool} (t : Transport) (address : CString) (port : ℕ)
    → IsValid opened t
    → IsValid opened ((add_gnb t address port).0)
unfolding add_gnb
add_gnb-IsValid t address port h = elim (Bool-cases (leb max_gnb (length t.gnb_list))) [
  | inl full ↦ rw full h
  | inr room ↦
      let gnb : GnbEndpoint = record {
        address = copy_string 64 address;
        port = or_default_port port;
      } in
      let below : length t.gnb_list < 8 = ground arith in
      rw room (record {
        table_size = h.table_size;
        counted = h.counted;
        serving_best = h.serving_best;
        nas_queue = h.nas_queue;
        data_queue = h.data_queue;
        acks_bounded = h.acks_bounded;
        gnbs_bounded = omega (arith, below, length-append t.gnb_list (gnb ∷ []));
        open_unless_idle = h.open_unless_idle;
        as_opened = h.as_opened;
      })
]

add_gnbs-IsValid :
    {opened : Bool} (addresses : List CString) (t : Transport) (port : ℕ)
    → IsValid opened t
    → Left opened (add_gnbs t addresses port)
unfolding add_gnbs
add_gnbs-IsValid [] t port h = h
add_gnbs-IsValid {opened} (address ∷ addresses) t port h =
    let added = add_gnb-IsValid t address port h in
    if_both (Left opened) _ _ _ (add_gnbs-IsValid addresses ((add_gnb t address port).0) port added)
      added

pub configure-IsValid :
    {opened : Bool} (t : Transport) (addresses : List CString) (port : ℕ)
    → IsValid opened t
    → Left opened (configure t addresses port)
unfolding configure
configure-IsValid {opened} t addresses port h =
    if_both (Left opened) _ _ _ h
      (add_gnbs-IsValid (take max_gnb addresses) t (or_default_port port) h)

pub emptied-IsQueue : (q : RxQueue) → IsQueue q → IsQueue (emptied q)
emptied-IsQueue q h = record { size = h.size; head_below = omega arith; tail_below = omega arith }

pub recv_nas_pdu-IsValid :
    {opened : Bool} (t : Transport) (buf_len : ℕ)
    → IsValid opened t
    → Left opened (recv_nas_pdu t buf_len)
unfolding recv_nas_pdu
recv_nas_pdu-IsValid {opened} t buf_len h = if_both (Left opened) _ _ _ h (
    option_both (Left opened) (rx_queue_peek t.nas_queue) _ _ h (λ e.
      with_queues t _ t.data_queue t.pending_ack_ids h (pop-IsQueue _ h.nas_queue) h.data_queue
        h.acks_bounded))

pub recv_data_pdu-IsValid :
    {opened : Bool} (t : Transport) (buf_len : ℕ)
    → IsValid opened t
    → Left opened (recv_data_pdu t buf_len)
unfolding recv_data_pdu
recv_data_pdu-IsValid {opened} t buf_len h = if_both (Left opened) _ _ _ h (
    option_both (Left opened) (rx_queue_peek t.data_queue) _ _ h (λ e.
      with_queues t t.nas_queue _ t.pending_ack_ids h h.nas_queue (pop-IsQueue _ h.data_queue)
        h.acks_bounded))
