-- ===== src/Ran/Heard.antt =====
-- A heartbeat keeps the transport of src/ue_engine/ue_ran_transport.c valid.
use virtuallte.Common.{
  ℕ, zero, suc, ◌+◌, ◌<◌, ◌≡◌, refl, sym, ◌∙◌, Bool, true, false, not, none, some, List, [], ◌∷◌,
  length, length-set, get_or, set, arith, Bool-cases, inl, inr, ◌⊎◌, option_cases,
}
use mathlib.Core.Path.{subst}
use virtuallte.Ran.State.{CellInfo, no_cell, SockAddr, Transport}
use virtuallte.Ran.Cells.{
  no_dbm, best_from, find_from, find_cell_by_sti, alloc_cell, handle_heartbeat_ack,
}
use virtuallte.Ran.Invariant.{used, Holds, IsValid, with_cells, get_or-valid, update_cell-IsValid}

find_from-hit :
    (test : CellInfo → Bool) (i : ℕ) (cells : List CellInfo) (k : ℕ)
    → find_from test i cells ≡ some k
    → (n : ℕ) × (k ≡ i + n) × (n < length cells) × (test (get_or cells n no_cell) ≡ true)
unfolding find_from
find_from-hit test i [] k h = cc
find_from-hit test i (c ∷ cells) k h = elim (Bool-cases (test c)) [
  | inl hit ↦ (0, ground arith, omega arith, hit)
  | inr miss ↦
      let (n, at, below, hit) = find_from-hit test (i + 1) cells k (rw miss at h) in
      (suc n, omega (arith, at), omega (arith, below), hit)
]

used-set_new :
    (cells : List CellInfo) (i : ℕ) (c : CellInfo)
    → i < length cells
    → (get_or cells i no_cell).valid ≡ false
    → c.valid ≡ true
    → used (set cells i c) ≡ used cells + 1
used-set_new [] i c h free new = absurd (omega arith)
used-set_new (x ∷ cells) zero c h free new = rw (free, new) (omega arith)
used-set_new (x ∷ cells) (suc i) c h free new =
    omega (arith, used-set_new cells i c (omega arith) free new)

free_cell : (b : Bool) → not b ≡ true → b ≡ false
free_cell true h = sym h
free_cell false h = refl

-- The transport with a new cell at index `i`.
abbrev pub allocated : Transport → ℕ → Transport
allocated t i = record t {
  cells = set t.cells i (record no_cell { valid = true; cell_id = t.next_cell_id });
  next_cell_id = t.next_cell_id + 1;
  cell_count = t.cell_count + 1;
}

-- The cell that is allocated stands in the table, which is well formed but for the serving cell.
alloc_cell-Holds :
    {opened : Bool} (t : Transport)
    → IsValid opened t
    → (alloc_cell t ≡ none)
      ⊎ ((t' : Transport) × (i : ℕ) × (alloc_cell t ≡ some (t', i))
          × Holds opened t'.state t'.gnb_list t'.cells t'.cell_count
              (best_from t'.cells no_dbm none)
              t'.socket_open
              t'.nas_queue
              t'.data_queue
              t'.pending_ack_ids)
unfolding alloc_cell
alloc_cell-Holds t h = elim (option_cases (find_from (λ cell. not cell.valid) 0 t.cells)) [
  | inl full ↦ inl (rw (full, alloc_cell) refl)
  | inr (i, free) ↦
      let (n, at, below, hit) = find_from-hit (λ cell. not cell.valid) 0 t.cells i free in
      let place : i < length t.cells = omega (arith, at, below) in
      let unused : (get_or t.cells i no_cell).valid ≡ false =
        subst (λ k. (get_or t.cells k no_cell).valid ≡ false) (omega (arith, at))
          (free_cell _ hit) in
      inr (
        allocated t i,
        i,
        rw (free, alloc_cell) refl,
        with_cells t _ (t.cell_count + 1) _ h (length-set t.cells i _ ∙ h.table_size)
            (omega (arith, h.counted, used-set_new t.cells i _ place unused refl)) refl,
      )
]

pub handle_heartbeat_ack-IsValid :
    {opened : Bool} (t : Transport) (sti dbm : ℕ) (peer : SockAddr) (now_ms : ℕ)
    → IsValid opened t
    → IsValid opened (handle_heartbeat_ack t sti dbm peer now_ms)
unfolding handle_heartbeat_ack
handle_heartbeat_ack-IsValid t sti dbm peer now_ms h =
    elim (option_cases (find_cell_by_sti t sti)) [
      | inl new ↦
          rw (new, handle_heartbeat_ack)
            (elim (alloc_cell-Holds t h) [
              | inl full ↦ rw full h
              | inr (t', i, given, ready) ↦ rw given (
                  let c = record (get_or t'.cells i no_cell) { sti = sti } in
                  update_cell-IsValid _ i dbm now_ms peer (
                    with_cells t' (set t'.cells i c) t'.cell_count _ ready
                      (length-set t'.cells i c ∙ ready.table_size)
                      (ready.counted ∙ sym (get_or-valid t'.cells i c refl)) refl))
            ])
      | inr (i, known) ↦
          rw (known, handle_heartbeat_ack) (update_cell-IsValid t i dbm now_ms peer h)
    ]
