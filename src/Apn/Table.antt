-- ===== src/Apn/Table.antt =====
-- The first entry of the table of apn_context.c that a test takes, and stores into the table.
use virtuallte.Common.{
  ℕ, zero, suc, ◌+◌, ◌<◌, ◌≡◌, ◌≢◌, ◌∙◌, refl, ap, sym, Bool, true, false, Option, none, some, List,
  [], ◌∷◌, length, set, get_or, get_or-set, get_or-set_other, arith, Bool-cases, ◌==◌, inl, inr,
  ◌⊎◌,
}
use virtuallte.Apn.{ApnContext, unused, first}

abbrev at : List ApnContext → ℕ → ApnContext
at cs i = get_or cs i unused

-- After a store each entry is the new one or the old one.
abbrev pub Stored : List ApnContext → ℕ → ℕ → ApnContext → Type 0
Stored cs i j c =
    ((j ≡ i) × (get_or (set cs i c) j unused ≡ c))
    ⊎ ((j ≢ i) × (get_or (set cs i c) j unused ≡ get_or cs j unused))

pub set-cases : (cs : List ApnContext) (i j : ℕ) (c : ApnContext) → i < length cs → Stored cs i j c
set-cases cs i j c h = elim (Bool-cases (j == i)) [
  | inl same ↦
      let here : j ≡ i = ground arith in
      inl (here, ap (λ k. get_or (set cs i c) k unused) here ∙ get_or-set cs i c unused h)
  | inr other ↦ inr (ground arith, get_or-set_other cs i j c unused (ground arith))
]

-- The entry that is found passes the test, and none before it does.
pub record IsFirst (p : ApnContext → Bool) (cs : List ApnContext) (i : ℕ) : Type 0 where
  pub inside : i < length cs
  pub passes : p (get_or cs i unused) ≡ true
  pub others : (j : ℕ) → j < i → p (get_or cs j unused) ≡ false

module _ (p : ApnContext → Bool) where
  later :
      (c : ApnContext) (cs : List ApnContext) (i : ℕ)
      → p c ≡ false
      → IsFirst p cs i
      → IsFirst p (c ∷ cs) (suc i)
  later c cs i h f = record { inside = omega (arith, f.inside); passes = f.passes; others = before }
    where
      before : (j : ℕ) → j < suc i → p (get_or (c ∷ cs) j unused) ≡ false
      before zero k = h
      before (suc j) k = f.others j (omega arith)

  pub first-IsFirst : (cs : List ApnContext) (i : ℕ) → first p cs ≡ some i → IsFirst p cs i
  unfolding first
  first-IsFirst [] i h = ground arith
  first-IsFirst (c ∷ cs) i h = elim (Bool-cases (p c)) [
    | inl taken ↦
        let here : 0 ≡ i = ground arith in
        rw (sym here)
          (record { inside = omega arith; passes = taken; others = λ j k. absurd (omega arith) })
    | inr skipped ↦ elim (option_cases (first p cs)) [
      | inl nothing ↦ absurd (ground arith)
      | inr (k, e) ↦
          let there : suc k ≡ i = ground arith in
          rw (sym there) (later c cs k skipped (first-IsFirst cs k e))
    ]
  ]
    where
      option_cases : (o : Option ℕ) → (o ≡ none) ⊎ ((k : ℕ) × (o ≡ some k))
      option_cases none = inl refl
      option_cases (some k) = inr (k, refl)

pub first_lem :
    (p : ApnContext → Bool) (cs : List ApnContext) (i : ℕ) → IsFirst p cs i → first p cs ≡ some i
unfolding first
first_lem p [] i h = absurd (omega (arith, h.inside))
first_lem p (c ∷ cs) zero h = ground (arith, h.passes)
first_lem p (c ∷ cs) (suc i) h =
    let rest : first p cs ≡ some i = first_lem p cs i (record {
      inside = omega (arith, h.inside);
      passes = h.passes;
      others = λ j k. h.others (suc j) (omega arith);
    }) in
    rw (h.others zero (omega arith), rest) (ap some (omega arith))

-- No entry is found where every entry fails.
pub first_nothing :
    (p : ApnContext → Bool) (cs : List ApnContext)
    → ((i : ℕ) → i < length cs → p (get_or cs i unused) ≡ false)
    → first p cs ≡ none
unfolding first
first_nothing p [] h = refl
first_nothing p (c ∷ cs) h =
    let rest : first p cs ≡ none = first_nothing p cs (λ i k. h (suc i) (omega arith)) in
    rw (h zero (omega arith), rest) refl

-- Where nothing is found every entry fails.
pub first-none :
    (p : ApnContext → Bool) (cs : List ApnContext)
    → first p cs ≡ none
    → (i : ℕ) → i < length cs
    → p (get_or cs i unused) ≡ false
unfolding first
first-none p [] h i k = absurd (omega arith)
first-none p (c ∷ cs) h zero k = ground arith
first-none p (c ∷ cs) h (suc i) k = elim (Bool-cases (p c)) [
  | inl taken ↦ absurd (ground arith)
  | inr skipped ↦ first-none p cs (rest_none (first p cs) (rw skipped at h)) i (omega arith)
]
  where
    rest_none : (o : Option ℕ) → (elim o [ none ↦ none | some j ↦ some (j + 1) ]) ≡ none → o ≡ none
    rest_none none e = refl
    rest_none (some j) e = absurd (cc e)
