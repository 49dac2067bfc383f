-- ===== src/Ran/Cells.antt =====
-- The cell table of src/ue_engine/ue_ran_transport.c. A pointer to a cell is its index.
use virtuallte.Common.{
  ℕ, ◌+◌, ◌-◌, ◌%◌, ◌^◌, Bool, true, false, not, ◌&&◌, ◌||◌, ◌==◌, ltb, if◌then◌else◌, Option, none,
  some, List, [], ◌∷◌, get_or, set,
}
use virtuallte.Ran.State.{CellInfo, no_cell, SockAddr, Transport, TransportState}

-- The comparison of two numbers of type `int` by their bit patterns.
abbrev pub signed : ℕ → ℕ
signed v = (v + 2 ^ 31) % 2 ^ 32

-- -999
abbrev pub no_dbm : ℕ
no_dbm = 2 ^ 32 - 999

-- The loops that look for a cell.
unfoldable pub find_from : (CellInfo → Bool) → ℕ → List CellInfo → Option ℕ
find_from test i [] = none
find_from test i (cell ∷ cells) = if test cell then some i else find_from test (i + 1) cells

unfoldable pub find_cell_by_sti : Transport → ℕ → Option ℕ
find_cell_by_sti t sti = find_from (λ cell. cell.valid && cell.sti == sti) 0 t.cells

-- No cell has the id -1.
abbrev pub has_id : Option ℕ → CellInfo → Bool
has_id none cell = false
has_id (some id) cell = cell.cell_id == id

unfoldable pub find_cell_by_id : Transport → Option ℕ → Option ℕ
find_cell_by_id t id = find_from (λ cell. cell.valid && has_id id cell) 0 t.cells

-- The ids of cells are numbers without bound here, where the source counts them in an `int`, which the
-- 2 ^ 31st new cell would overflow.
unfoldable pub alloc_cell : Transport → Option (Transport × ℕ)
alloc_cell t = elim (find_from (λ cell. not cell.valid) 0 t.cells) [
  | none ↦ none
  | some i ↦ some (
    record t {
      cells = set t.cells i (record no_cell { valid = true; cell_id = t.next_cell_id });
      next_cell_id = t.next_cell_id + 1;
      cell_count = t.cell_count + 1;
    },
    i,
  )
]

-- The loop over the cells with `best_dbm` and `best_id`.
unfoldable pub best_from : List CellInfo → ℕ → Option ℕ → Option ℕ
best_from [] best_dbm best_id = best_id
best_from (cell ∷ cells) best_dbm best_id =
    if cell.valid && ltb (signed best_dbm) (signed cell.dbm)
    then best_from cells cell.dbm (some cell.cell_id)
    else best_from cells best_dbm best_id

unfoldable pub select_best_serving_cell : Transport → Transport
select_best_serving_cell t = record t { serving_cell_id = best_from t.cells no_dbm none }

-- The test of a cell's age, in 64 bits.
abbrev pub is_stale : ℕ → ℕ → CellInfo → Bool
is_stale now_ms timeout_ms cell =
    cell.valid && ltb timeout_ms ((now_ms + 2 ^ 64 - cell.last_seen_ms) % 2 ^ 64)

-- The loop over the cells: what is left of them, how many went, and whether the serving one did.
unfoldable pub expire_from : ℕ → ℕ → Option ℕ → List CellInfo → List CellInfo × (ℕ × Bool)
expire_from now_ms timeout_ms serving [] = ([], (0, false))
expire_from now_ms timeout_ms serving (cell ∷ cells) =
    let rest = expire_from now_ms timeout_ms serving cells in
    if is_stale now_ms timeout_ms cell
    then (record cell { valid = false } ∷ rest.0, (rest.1.0 + 1, has_id serving cell || rest.1.1))
    else (cell ∷ rest.0, rest.1)

-- The state when the serving cell went.
unfoldable pub reselect : Transport → Transport
reselect t =
    let t : Transport = select_best_serving_cell t in
    elim t.serving_cell_id [ none ↦ record t { state = TransportState.lost } | some id ↦ t ]

unfoldable pub expire_cells : Transport → ℕ → Transport
expire_cells t now_ms =
    let result = expire_from now_ms t.heartbeat_timeout_ms t.serving_cell_id t.cells in
    let t : Transport = record t { cells = result.0; cell_count = t.cell_count - result.1.0 } in
    if result.1.1 then reselect t else t

-- What a heartbeat tells of a cell.
abbrev pub refresh : ℕ → ℕ → SockAddr → CellInfo → CellInfo
refresh dbm now_ms peer cell = record cell { dbm = dbm; last_seen_ms = now_ms; addr = some peer }

unfoldable pub update_cell : Transport → ℕ → ℕ → ℕ → SockAddr → Transport
update_cell t i dbm now_ms peer =
    select_best_serving_cell
      (record t { cells = set t.cells i (refresh dbm now_ms peer (get_or t.cells i no_cell)) })

unfoldable pub handle_heartbeat_ack : Transport → ℕ → ℕ → SockAddr → ℕ → Transport
handle_heartbeat_ack t sti dbm peer now_ms = elim (find_cell_by_sti t sti) [
  | some i ↦ update_cell t i dbm now_ms peer
  | none ↦ elim (alloc_cell t) [
    | none ↦ t
    | some (t, i) ↦
        update_cell
          (record t { cells = set t.cells i (record (get_or t.cells i no_cell) { sti = sti }) }) i
          dbm now_ms peer
  ]
]
