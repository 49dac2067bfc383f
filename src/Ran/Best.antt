-- ===== src/Ran/Best.antt =====
-- The serving cell of src/ue_engine/ue_ran_transport.c is the best one of the table.
use virtuallte.Common.{
  ℕ, ◌+◌, ◌-◌, ◌%◌, ◌^◌, ◌≤◌, ◌<◌, ◌≡◌, refl, sym, ◌∙◌, ◌⊎◌, true, false, ◌&&◌, ltb, ==_iff, Option,
  none, some, List, [], ◌∷◌, All, arith, Bool-cases, inl, inr,
}
use mathlib.Core.Path.{subst}
use virtuallte.Ran.State.{CellInfo, Transport}
use virtuallte.Ran.Cells.{
  signed, no_dbm, has_id, best_from, is_stale, expire_from, select_best_serving_cell,
}

-- The place of a 32-bit pattern in the order of the signed numbers: -2 ^ 31 is at 0.
abbrev pub rank : ℕ → ℕ
rank v = (v + 2 ^ 31) % 2 ^ 32

-- A level that is no better than another.
abbrev pub NoBetter : ℕ → CellInfo → Type 0
NoBetter dbm cell = (cell.valid ≡ false) ⊎ (rank cell.dbm ≤ rank dbm)

-- The cell stands in the table.
abbrev pub HasCell : (CellInfo → Type 0) → List CellInfo → Type 0
HasCell P [] = ⊥
HasCell P (cell ∷ cells) = P cell ⊎ HasCell P cells

-- What the loop ends with: its start, which no cell is better than, or a cell that beats the start
-- and that no cell is better than.
abbrev Picked : List CellInfo → ℕ → Option ℕ → Option ℕ → Type 0
Picked cells dbm start result =
    (All (NoBetter dbm) cells × (result ≡ start))
    ⊎ ((id : ℕ) × (level : ℕ) × (result ≡ some id)
        × (rank dbm < rank level)
        × HasCell (λ c. (c.valid ≡ true) × (c.cell_id ≡ id) × (c.dbm ≡ level)) cells
        × All (NoBetter level) cells)

no_better :
    (dbm : ℕ) (c : CellInfo) → (c.valid && ltb (signed dbm) (signed c.dbm)) ≡ false → NoBetter dbm c
no_better dbm c h = elim (Bool-cases c.valid) [
  | inl used ↦ inr (ground arith)
  | inr unused ↦ inl unused
]

pub best_from-Picked :
    (cells : List CellInfo) (dbm : ℕ) (start : Option ℕ)
    → Picked cells dbm start (best_from cells dbm start)
unfolding best_from
best_from-Picked [] dbm start = inl (tt, refl)
best_from-Picked (c ∷ cells) dbm start =
    elim (Bool-cases (c.valid && ltb (signed dbm) (signed c.dbm))) [
      | inl better ↦ rw better (elim (best_from-Picked cells c.dbm (some c.cell_id)) [
        | inl (all, same) ↦ inr (
          c.cell_id,
          c.dbm,
          same,
          ground arith,
          inl (ground arith, refl, refl),
          (inr (omega arith), all),
        )
        | inr (id, level, same, more, there, all) ↦
            inr (id, level, same, ground arith, inr there, (inr (omega arith), all))
      ])
      | inr worse ↦ rw worse (elim (best_from-Picked cells dbm start) [
        | inl (all, same) ↦ inl ((no_better dbm c worse, all), same)
        | inr (id, level, same, more, there, all) ↦
            let here : NoBetter level c = elim (no_better dbm c worse) [
              | inl gone ↦ inl gone
              | inr less ↦ inr (omega (arith, less, more))
            ] in
            inr (id, level, same, more, inr there, (here, all))
      ])
    ]

-- A choice from a table: none, if no cell has a level above -999, or else a cell of the table with
-- such a level that no cell has a better level than.
abbrev pub IsBest : List CellInfo → Option ℕ → Type 0
IsBest cells result = Picked cells (2 ^ 32 - 999) none result

-- The serving cell that is selected is a cell of the table that is in use and has the best level, and
-- it is none only if no cell in use has a level above -999.
pub select_best_serving_cell-IsBest :
    (t : Transport) → IsBest t.cells ((select_best_serving_cell t).serving_cell_id)
unfolding select_best_serving_cell
select_best_serving_cell-IsBest t = best_from-Picked t.cells no_dbm none

pub best_from-IsBest :
    (cells : List CellInfo) (serving : Option ℕ)
    → best_from cells no_dbm none ≡ serving
    → IsBest cells serving
best_from-IsBest cells serving e = subst (IsBest cells) e (best_from-Picked cells no_dbm none)

raised :
    (cells : List CellInfo) (d e : ℕ) (a b : Option ℕ)
    → signed d ≤ signed e
    → (best_from cells e b ≡ b) ⊎ (best_from cells d a ≡ best_from cells e b)
unfolding best_from
raised [] d e a b h = inl refl
raised (c ∷ cells) d e a b h = elim (Bool-cases (c.valid && ltb (signed e) (signed c.dbm))) [
  | inl above ↦
      let both : (c.valid && ltb (signed d) (signed c.dbm)) ≡ true = ground arith in
      rw (above, both) (inr refl)
  | inr below ↦ rw below (elim (Bool-cases (c.valid && ltb (signed d) (signed c.dbm))) [
    | inl between ↦ rw between (raised cells c.dbm e (some c.cell_id) b (ground arith))
    | inr under ↦ rw under (raised cells d e a b h)
  ])
]

has_own_id :
    (serving : Option ℕ) (c : CellInfo) → serving ≡ some c.cell_id → has_id serving c ≡ true
has_own_id serving c e =
    subst (λ (s : Option ℕ). has_id s c ≡ true) (sym e) ((==_iff c.cell_id c.cell_id).1 refl)

-- A cell that was not picked is not missed.
unmissed :
    (c : CellInfo) (cells : List CellInfo) (dbm : ℕ) (start serving : Option ℕ)
    → best_from (c ∷ cells) dbm start ≡ serving
    → has_id serving c ≡ false
    → best_from cells dbm start ≡ serving
unfolding best_from
unmissed c cells dbm start serving h other =
    elim (Bool-cases (c.valid && ltb (signed dbm) (signed c.dbm))) [
      | inl better ↦
          let picked : best_from cells c.dbm (some c.cell_id) ≡ serving = rw better at h in
          elim (raised cells dbm c.dbm start (some c.cell_id) (ground arith)) [
            | inl own ↦ absurd (cc (has_own_id serving c (sym picked ∙ own), other))
            | inr same ↦ same ∙ picked
          ]
      | inr worse ↦ rw worse at h
    ]

skip_unused :
    (c : CellInfo) (cells : List CellInfo) (dbm : ℕ) (start : Option ℕ)
    → best_from (record c { valid = false } ∷ cells) dbm start ≡ best_from cells dbm start
unfolding best_from
skip_unused c cells dbm start = refl

-- A cell that stays does what it did.
best_from-keep :
    (c : CellInfo) (rest cells : List CellInfo) (dbm : ℕ) (start serving : Option ℕ)
    → best_from (c ∷ cells) dbm start ≡ serving
    → ((d : ℕ) (b : Option ℕ) → best_from cells d b ≡ serving → best_from rest d b ≡ serving)
    → best_from (c ∷ rest) dbm start ≡ serving
unfolding best_from
best_from-keep c rest cells dbm start serving h next =
    elim (Bool-cases (c.valid && ltb (signed dbm) (signed c.dbm))) [
      | inl better ↦ rw better (next _ _ (rw better at h))
      | inr worse ↦ rw worse (next _ _ (rw worse at h))
    ]

pub best_from-expire :
    (now_ms timeout_ms : ℕ) (serving : Option ℕ) (cells : List CellInfo) (dbm : ℕ)
    (start : Option ℕ)
    → best_from cells dbm start ≡ serving
    → (expire_from now_ms timeout_ms serving cells).1.1 ≡ false
    → best_from ((expire_from now_ms timeout_ms serving cells).0) dbm start ≡ serving
unfolding expire_from
best_from-expire now_ms timeout_ms serving [] dbm start h kept = h
best_from-expire now_ms timeout_ms serving (c ∷ cells) dbm start h kept =
    elim (Bool-cases (is_stale now_ms timeout_ms c)) [
      | inl stale ↦
          let lost = rw stale at kept in
          rw stale (
            skip_unused c ((expire_from now_ms timeout_ms serving cells).0) dbm start
            ∙ best_from-expire now_ms timeout_ms serving cells dbm start
                (unmissed c cells dbm start serving h (ground arith)) (ground arith))
      | inr fresh ↦ rw fresh (
          best_from-keep c ((expire_from now_ms timeout_ms serving cells).0) cells dbm start serving
            h (λ d b e. best_from-expire now_ms timeout_ms serving cells d b e (rw fresh at kept)))
    ]
