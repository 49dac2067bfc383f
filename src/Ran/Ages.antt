-- ===== src/Ran/Ages.antt =====
-- The cells that src/ue_engine/ue_ran_transport.c gives up.
use virtuallte.Common.{
  ℕ, ◌+◌, ◌-◌, ◌%◌, ◌^◌, ◌≤◌, ◌<◌, ◌⊎◌, arith, ◌≡◌, refl, sym, true, false, Option, none, List, [],
  ◌∷◌, Bool-cases, inl, inr, if_both, option_both,
}
use mathlib.Core.Path.{subst}
use virtuallte.Ran.State.{CellInfo, Transport}
use virtuallte.Ran.Cells.{
  is_stale, expire_from, expire_cells, reselect, select_best_serving_cell, best_from, no_dbm,
}
use virtuallte.Ran.Best.{IsBest, best_from-IsBest}
use virtuallte.Ran.Invariant.{IsValid, used, expire_cells-IsValid}

-- How long ago a cell was heard of, in 64 bits.
abbrev pub age : ℕ → CellInfo → ℕ
age now_ms cell = (now_ms + 2 ^ 64 - cell.last_seen_ms) % 2 ^ 64

-- What becomes of a cell: one in use whose age is above the timeout is no longer in use, and any other
-- is left as it was.
abbrev pub Aged : ℕ → ℕ → CellInfo → CellInfo → Type 0
Aged now_ms timeout_ms cell cell' =
    ((cell.valid ≡ true) × (timeout_ms < age now_ms cell) × (cell' ≡ record cell { valid = false }))
    ⊎ (((cell.valid ≡ false) ⊎ (age now_ms cell ≤ timeout_ms)) × (cell' ≡ cell))

abbrev pub AllAged : ℕ → ℕ → List CellInfo → List CellInfo → Type 0
AllAged now_ms timeout_ms [] [] = Unit {0}
AllAged now_ms timeout_ms [] (cell' ∷ cells') = ⊥
AllAged now_ms timeout_ms (cell ∷ cells) [] = ⊥
AllAged now_ms timeout_ms (cell ∷ cells) (cell' ∷ cells') =
    Aged now_ms timeout_ms cell cell' × AllAged now_ms timeout_ms cells cells'

stale_age :
    (now_ms timeout_ms : ℕ) (c : CellInfo)
    → is_stale now_ms timeout_ms c ≡ true
    → (c.valid ≡ true) × (timeout_ms < age now_ms c)
stale_age now_ms timeout_ms c h = ground arith

fresh_age :
    (now_ms timeout_ms : ℕ) (c : CellInfo)
    → is_stale now_ms timeout_ms c ≡ false
    → (c.valid ≡ false) ⊎ (age now_ms c ≤ timeout_ms)
fresh_age now_ms timeout_ms c h = elim (Bool-cases c.valid) [
  | inl used ↦ inr (ground arith)
  | inr unused ↦ inl unused
]

expire_from-AllAged :
    (now_ms timeout_ms : ℕ) (serving : Option ℕ) (cells : List CellInfo)
    → AllAged now_ms timeout_ms cells ((expire_from now_ms timeout_ms serving cells).0)
unfolding expire_from
expire_from-AllAged now_ms timeout_ms serving [] = tt
expire_from-AllAged now_ms timeout_ms serving (c ∷ cells) =
    let rest = expire_from-AllAged now_ms timeout_ms serving cells in
    elim (Bool-cases (is_stale now_ms timeout_ms c)) [
      | inl stale ↦
          let (valid, old) = stale_age now_ms timeout_ms c stale in
          rw stale (inl (valid, old, refl), rest)
      | inr fresh ↦ rw fresh (inr (fresh_age now_ms timeout_ms c fresh, refl), rest)
    ]

reselect-cells : (t : Transport) → (reselect t).cells ≡ t.cells
unfolding reselect select_best_serving_cell
reselect-cells t =
    option_both (λ (s : Transport). s.cells ≡ t.cells) (best_from t.cells no_dbm none) _ _ refl
      (λ id. refl)

expire_cells-AllAged :
    (t : Transport) (now_ms : ℕ)
    → AllAged now_ms t.heartbeat_timeout_ms t.cells ((expire_cells t now_ms).cells)
unfolding expire_cells
expire_cells-AllAged t now_ms =
    let AgedTo : List CellInfo → Type 0 = AllAged now_ms t.heartbeat_timeout_ms t.cells in
    let aged = expire_from-AllAged now_ms t.heartbeat_timeout_ms t.serving_cell_id t.cells in
    if_both (λ (s : Transport). AgedTo s.cells) _ _ _ (subst AgedTo (sym (reselect-cells _)) aged)
      aged

-- In a started transport the cells in use that were not heard of for longer than the timeout, and no
-- others, are given up, and the rest of the table is as it was; the count is how many are still in
-- use, and the serving cell is one in use with the best level above -999, or none if there is none.
pub expire_cells_lem :
    (t : Transport) (now_ms : ℕ)
    → IsValid true t
    → AllAged now_ms t.heartbeat_timeout_ms t.cells ((expire_cells t now_ms).cells)
      × ((expire_cells t now_ms).cell_count ≡ used ((expire_cells t now_ms).cells))
      × IsBest ((expire_cells t now_ms).cells) ((expire_cells t now_ms).serving_cell_id)
expire_cells_lem t now_ms h =
    let valid = expire_cells-IsValid t now_ms h.as_opened h in
    (expire_cells-AllAged t now_ms, valid.counted, best_from-IsBest _ _ valid.serving_best)
