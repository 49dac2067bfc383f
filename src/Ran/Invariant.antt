-- ===== src/Ran/Invariant.antt =====
-- What every operation of src/ue_engine/ue_ran_transport.c keeps true of the transport.
use virtuallte.Common.{
  ℕ, zero, suc, ◌+◌, ◌-◌, ◌≤◌, ◌≡◌, refl, ap, sym, ◌∙◌, Bool, true, not, Option, none, List, [],
  ◌∷◌, length, length-set, get_or, set, arith, Bool-cases, inl, inr, if◌then◌else◌, option_both,
}
use virtuallte.Ran.State.{
  TransportState, is_state, GnbEndpoint, CellInfo, no_cell, RxQueue, SockAddr, Transport,
}
use virtuallte.Ran.Fifo.{IsQueue}
use virtuallte.Ran.Cells.{
  no_dbm, best_from, select_best_serving_cell, is_stale, expire_from, reselect, expire_cells,
  update_cell, refresh,
}
use virtuallte.Ran.Best.{best_from-expire}

-- The cells in use.
abbrev pub used : List CellInfo → ℕ
used [] = 0
used (c ∷ cells) = (if c.valid then 1 else 0) + used cells

pub record Holds (opened : Bool) (state : TransportState) (gnbs : List GnbEndpoint)
    (cells : List CellInfo) (cell_count : ℕ) (serving : Option ℕ) (socket_open : Bool)
    (nas data_pdus : RxQueue) (acks : List ℕ) : Type 0 where
  pub table_size : length cells ≡ 16
  pub counted : cell_count ≡ used cells
  pub serving_best : best_from cells no_dbm none ≡ serving
  pub nas_queue : IsQueue nas
  pub data_queue : IsQueue data_pdus
  pub acks_bounded : length acks ≤ 64
  pub gnbs_bounded : length gnbs ≤ 8
  pub open_unless_idle : is_state state TransportState.idle ≡ not socket_open
  pub as_opened : socket_open ≡ opened

-- The table has its size and its count, the serving cell is the best of it, the queues are well formed,
-- the ids fit their array, the endpoints theirs, and the socket is open, as told, unless the transport is idle.
abbrev pub IsValid : Bool → Transport → Type 0
IsValid opened t =
    Holds opened t.state t.gnb_list t.cells t.cell_count t.serving_cell_id t.socket_open t.nas_queue
      t.data_queue t.pending_ack_ids

length-expire :
    (now_ms timeout_ms : ℕ) (serving : Option ℕ) (cells : List CellInfo)
    → length ((expire_from now_ms timeout_ms serving cells).0) ≡ length cells
unfolding expire_from
length-expire now_ms timeout_ms serving [] = refl
length-expire now_ms timeout_ms serving (c ∷ cells) =
    elim (Bool-cases (is_stale now_ms timeout_ms c)) [
      | inl stale ↦ rw stale (ap suc (length-expire now_ms timeout_ms serving cells))
      | inr fresh ↦ rw fresh (ap suc (length-expire now_ms timeout_ms serving cells))
    ]

used-expire :
    (now_ms timeout_ms : ℕ) (serving : Option ℕ) (cells : List CellInfo)
    → used ((expire_from now_ms timeout_ms serving cells).0)
        + (expire_from now_ms timeout_ms serving cells).1.0
      ≡ used cells
unfolding expire_from
used-expire now_ms timeout_ms serving [] = refl
used-expire now_ms timeout_ms serving (c ∷ cells) =
    elim (Bool-cases (is_stale now_ms timeout_ms c)) [
      | inl stale ↦
          let valid : c.valid ≡ true = ground arith in
          rw (stale, valid) (omega (arith, used-expire now_ms timeout_ms serving cells))
      | inr fresh ↦ rw fresh (omega (arith, used-expire now_ms timeout_ms serving cells))
    ]

pub with_cells :
    {opened : Bool} (t : Transport) {old_cells : List CellInfo} {old_count : ℕ} {old : Option ℕ}
    (cells : List CellInfo) (cell_count : ℕ) (serving : Option ℕ)
    → Holds opened t.state t.gnb_list old_cells old_count old t.socket_open t.nas_queue t.data_queue
        t.pending_ack_ids
    → length cells ≡ 16
    → cell_count ≡ used cells
    → best_from cells no_dbm none ≡ serving
    → Holds opened t.state t.gnb_list cells cell_count serving t.socket_open t.nas_queue
        t.data_queue t.pending_ack_ids
with_cells t cells cell_count serving h size count best = record {
  table_size = size;
  counted = count;
  serving_best = best;
  nas_queue = h.nas_queue;
  data_queue = h.data_queue;
  acks_bounded = h.acks_bounded;
  gnbs_bounded = h.gnbs_bounded;
  open_unless_idle = h.open_unless_idle;
  as_opened = h.as_opened;
}

reselect-IsValid :
    {opened : Bool} (t : Transport)
    → t.socket_open ≡ true
    → Holds opened t.state t.gnb_list t.cells t.cell_count
        (best_from t.cells no_dbm none)
        t.socket_open
        t.nas_queue
        t.data_queue
        t.pending_ack_ids
    → IsValid opened (reselect t)
unfolding reselect select_best_serving_cell
reselect-IsValid {opened} t up h =
    option_both (IsValid opened) (best_from t.cells no_dbm none) _ _
      (record {
        table_size = h.table_size;
        counted = h.counted;
        serving_best = refl;
        nas_queue = h.nas_queue;
        data_queue = h.data_queue;
        acks_bounded = h.acks_bounded;
        gnbs_bounded = h.gnbs_bounded;
        open_unless_idle = rw up refl;
        as_opened = h.as_opened;
      })
      (λ id. h)

pub expire_cells-IsValid :
    {opened : Bool} (t : Transport) (now_ms : ℕ)
    → t.socket_open ≡ true
    → IsValid opened t
    → IsValid opened (expire_cells t now_ms)
unfolding expire_cells
expire_cells-IsValid t now_ms up h =
    let left = expire_from now_ms t.heartbeat_timeout_ms t.serving_cell_id t.cells in
    let size =
      length-expire now_ms t.heartbeat_timeout_ms t.serving_cell_id t.cells ∙ h.table_size in
    let count : t.cell_count - left.1.0 ≡ used left.0 =
      omega
        (arith, h.counted, used-expire now_ms t.heartbeat_timeout_ms t.serving_cell_id t.cells) in
    elim (Bool-cases left.1.1) [
      | inl lost ↦ rw lost (
          reselect-IsValid _ up (with_cells t left.0 (t.cell_count - left.1.0) _ h size count refl))
      | inr kept ↦ rw kept (
          with_cells t left.0 (t.cell_count - left.1.0) t.serving_cell_id h size count (
            best_from-expire now_ms t.heartbeat_timeout_ms t.serving_cell_id t.cells no_dbm none
              h.serving_best kept))
    ]

pub get_or-valid :
    (cells : List CellInfo) (i : ℕ) (c : CellInfo)
    → c.valid ≡ (get_or cells i no_cell).valid
    → used (set cells i c) ≡ used cells
get_or-valid [] i c h = refl
get_or-valid (x ∷ cells) zero c h = rw h refl
get_or-valid (x ∷ cells) (suc i) c h =
    ap (λ n. (if x.valid then 1 else 0) + n) (get_or-valid cells i c h)

pub update_cell-IsValid :
    {opened : Bool} (t : Transport) {old : Option ℕ} (i dbm now_ms : ℕ) (peer : SockAddr)
    → Holds opened t.state t.gnb_list t.cells t.cell_count old t.socket_open t.nas_queue
        t.data_queue t.pending_ack_ids
    → IsValid opened (update_cell t i dbm now_ms peer)
unfolding update_cell select_best_serving_cell
update_cell-IsValid t i dbm now_ms peer h =
    let c = refresh dbm now_ms peer (get_or t.cells i no_cell) in
    with_cells t (set t.cells i c) t.cell_count _ h (length-set t.cells i c ∙ h.table_size)
      (h.counted ∙ sym (get_or-valid t.cells i c refl)) refl
