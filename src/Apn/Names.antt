-- ===== src/Apn/Names.antt =====
-- The names of apn_context.c, which are compared without the case of their letters.
use virtuallte.Common.{
  ℕ, ◌+◌, ◌<◌, ◌≡◌, ◌⊎◌, inl, inr, refl, Bool, true, false, ◌&&◌, ◌==◌, leb, if◌then◌else◌, none,
  some, [], ◌∷◌, length, CString, is_empty, Bool-cases, arith, ==_iff,
}
use virtuallte.Apn.{
  ApnContext, ContextKind, Manager, context_at, first, find_by_apn, classify, same_name, lower,
  ims_name,
}
use virtuallte.Apn.Table.{first-IsFirst, first-none}

-- A name with its capitals made small.
abbrev pub small : CString → CString
small [] = []
small (c ∷ s) = (if leb 65 c && leb c 90 then c + 32 else c) ∷ small s

-- Two names that differ in their capitals at most.
abbrev pub Same : CString → CString → Type 0
Same a b = small a ≡ small b

head_tail : (x y : ℕ) (xs ys : CString) → x ∷ xs ≡ y ∷ ys → (x ≡ y) × (xs ≡ ys)
head_tail x y xs ys e = (cc e, cc e)

same_name-Same : (a b : CString) → same_name a b ≡ true → Same a b
same_name-Same [] [] h = refl
same_name-Same [] (d ∷ b) h = absurd (cc h)
same_name-Same (c ∷ a) [] h = absurd (cc h)
same_name-Same (c ∷ a) (d ∷ b) h =
    let rest : same_name a b ≡ true = ground arith in
    let here : lower c ≡ lower d = ground arith in
    let there = same_name-Same a b rest in cc (here, there)

Same-same_name : (a b : CString) → Same a b → same_name a b ≡ true
Same-same_name [] [] h = refl
Same-same_name [] (d ∷ b) h = absurd (cc h)
Same-same_name (c ∷ a) [] h = absurd (cc h)
Same-same_name (c ∷ a) (d ∷ b) h =
    let (here, there) = head_tail (lower c) (lower d) (small a) (small b) h in
    let test : (lower c == lower d) ≡ true = (==_iff (lower c) (lower d)).1 here in
    let rest = Same-same_name a b there in rw (test) rest

-- An entry in use has the name.
abbrev pub Named : Manager → CString → ℕ → Type 0
Named mgr apn i = ((context_at mgr i).used ≡ true) × Same (context_at mgr i).apn apn

abbrev pub Unknown : Manager → CString → Type 0
Unknown mgr apn = (j : ℕ) → j < 16 → Named mgr apn j → ⊥

pub found-Named :
    (mgr : Manager) (apn : CString) (i : ℕ)
    → is_empty apn ≡ false
    → find_by_apn mgr apn ≡ some i
    → Named mgr apn i × ((j : ℕ) → j < i → Named mgr apn j → ⊥)
unfolding find_by_apn
found-Named mgr apn i named e =
    let found : first (λ c. c.used && same_name c.apn apn) mgr.contexts ≡ some i =
      ground (arith, named, e) in
    let f = first-IsFirst _ mgr.contexts i found in
    let c : ApnContext = context_at mgr i in
    let used : c.used ≡ true = ground (arith, f.passes) in
    let same : same_name c.apn apn ≡ true = ground (arith, f.passes) in
    ((used, same_name-Same c.apn apn same), λ j k n. not_both j (f.others j k) n)
  where
    not_both :
        (j : ℕ)
        → ((context_at mgr j).used && same_name (context_at mgr j).apn apn) ≡ false
        → Named mgr apn j
        → ⊥
    not_both j h n =
        let a = n.0 in
        let b = Same-same_name (context_at mgr j).apn apn n.1 in absurd (cc (a, b, h))

pub none-Unknown :
    (mgr : Manager) (apn : CString)
    → length mgr.contexts ≡ 16
    → is_empty apn ≡ false
    → find_by_apn mgr apn ≡ none
    → Unknown mgr apn
unfolding find_by_apn
none-Unknown mgr apn size named e j k n =
    let nothing : first (λ c. c.used && same_name c.apn apn) mgr.contexts ≡ none =
      ground (arith, named, e) in
    let h = first-none (λ c. c.used && same_name c.apn apn) mgr.contexts nothing j (omega arith) in
    let a = n.0 in let b = Same-same_name (context_at mgr j).apn apn n.1 in absurd (cc (a, b, h))

-- The kind of a name: "ims" in any capitals is internal where the IMS service is enabled.
abbrev pub WantedKind : Bool → CString → ContextKind → Type 0
WantedKind ims_enabled apn kind =
    ((ims_enabled ≡ true) × Same apn (105 ∷ 109 ∷ 115 ∷ []) × (kind ≡ ContextKind.ims_internal))
    ⊎ (((ims_enabled ≡ false) ⊎ (Same apn (105 ∷ 109 ∷ 115 ∷ []) → ⊥))
        × (kind ≡ ContextKind.host_data))

pub classify-WantedKind :
    (mgr : Manager) (apn : CString) → WantedKind mgr.ims_enabled apn (classify mgr apn)
unfolding classify
classify-WantedKind mgr apn = elim (Bool-cases mgr.ims_enabled) [
  | inr off ↦ rw off (inr (inl refl, refl))
  | inl on ↦ elim (Bool-cases (same_name apn ims_name)) [
    | inl same ↦ rw (on, same) (inl (refl, same_name-Same apn ims_name same, refl))
    | inr other ↦
        let differs : Same apn ims_name → ⊥ =
          λ (e : Same apn ims_name). absurd (cc (Same-same_name apn ims_name e, other)) in
        rw (on, other) (inr (inr differs, refl))
  ]
]
