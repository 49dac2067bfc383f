-- ===== src/Apn/Upsert.antt =====
-- What `apn_context_upsert` of apn_context.c leaves for the lookups.
use virtuallte.Common.{
  get_or-set, get_or-set_other, take, ℕ, ◌+◌, ◌-◌, ◌≤◌, ◌<◌, ◌≡◌, ◌≢◌, ◌⊎◌, inl, inr, ◌∙◌, refl, ap,
  sym, Bool, true, false, ◌==◌, leb, if◌then◌else◌, none, some, [], ◌∷◌, length, CString, is_empty,
  ok, reject, Bool-cases, option_cases, arith, leb→le,
}
use mathlib.Core.Path.{subst}
use virtuallte.Apn.{
  ApnContext, ContextSource, Manager, unused, context_at, find_by_apn, assign, allocate, upsert,
  get_by_id,
}
use virtuallte.Apn.Names.{
  Named, Unknown, WantedKind, found-Named, none-Unknown, classify-WantedKind,
}
use virtuallte.Apn.Dense.{
  IsDense, assign-IsDense, allocate-IsDense, free_place, no_place, found_in_use, by_id,
}

-- What the call assigns in any case: the entry at `place` of the new table, which the id finds.
pub record Assigned (mgr : Manager) (apn : CString) (ip_type : ℕ) (source : ContextSource)
    (place : ℕ) (r : Manager × ℕ) : Type 0 where
  pub table : IsDense r.0
  pub id : r.1 ≡ place + 1
  pub found : get_by_id r.0 r.1 ≡ some (context_at r.0 place)
  pub kind : WantedKind mgr.ims_enabled apn (context_at r.0 place).kind
  pub ip : (context_at r.0 place).ip_type ≡ (if ip_type == 0 then 1 else ip_type)
  pub same_source : (context_at r.0 place).source ≡ source
  pub same_ims : r.0.ims_enabled ≡ mgr.ims_enabled
  pub others : (j : ℕ) → place ≢ j → context_at r.0 j ≡ context_at mgr j

-- The first entry in use that has the name keeps its name and stays where it is.
abbrev pub Renewed : Manager → CString → ℕ → Manager → Type 0
Renewed mgr apn place now =
    Named mgr apn place
    × ((j : ℕ) → j < place → Named mgr apn j → ⊥)
    × ((context_at now place).apn ≡ (context_at mgr place).apn)
    × (now.next_id ≡ mgr.next_id)

-- No entry in use has the name, and the next one gets it, cut to 63 bytes.
abbrev pub Created : Manager → CString → ℕ → Manager → Type 0
Created mgr apn place now =
    Unknown mgr apn
    × (place + 1 ≡ mgr.next_id)
    × ((context_at now place).apn ≡ take 63 apn)
    × (now.next_id ≡ mgr.next_id + 1)

assign-Assigned :
    (mgr : Manager) (i : ℕ) (apn : CString) (ip_type : ℕ) (source : ContextSource)
    → IsDense mgr
    → i + 1 < mgr.next_id
    → Assigned mgr apn ip_type source i (assign mgr i apn ip_type source)
unfolding assign
assign-Assigned mgr i apn ip_type source h k =
    let after = assign mgr i apn ip_type source in
    let dense : IsDense after.0 =
      assign-IsDense mgr h i apn ip_type source (omega (arith, h.high)) in
    let inside : i < length mgr.contexts = omega (arith, h.size, h.high) in
    let new = get_or-set mgr.contexts i _ unused inside in
    record {
      table = dense;
      id = h.ids i k;
      found = ap (get_by_id after.0) (h.ids i k) ∙ by_id after.0 dense i k;
      kind =
          subst (WantedKind mgr.ims_enabled apn) (sym (ap (λ (c : ApnContext). c.kind) new))
            (classify-WantedKind mgr apn);
      ip = ap (λ (c : ApnContext). c.ip_type) new;
      same_source = ap (λ (c : ApnContext). c.source) new;
      same_ims = refl;
      others = λ j other. get_or-set_other mgr.contexts i j _ unused other;
    }

assign-keeps :
    (mgr : Manager) (i : ℕ) (apn : CString) (ip_type : ℕ) (source : ContextSource)
    → i < length mgr.contexts
    → ((context_at (assign mgr i apn ip_type source).0 i).apn ≡ (context_at mgr i).apn)
      × ((assign mgr i apn ip_type source).0.next_id ≡ mgr.next_id)
unfolding assign
assign-keeps mgr i apn ip_type source inside =
    (ap (λ (c : ApnContext). c.apn) (get_or-set mgr.contexts i _ unused inside), refl)

-- The new entry is the only change to the table.
allocate_lem :
    (mgr : Manager) (i : ℕ) (apn : CString)
    → i < length mgr.contexts
    → mgr.next_id ≤ 17
    → ((context_at (allocate mgr i apn) i).apn ≡ take 63 apn)
      × ((allocate mgr i apn).next_id ≡ mgr.next_id + 1)
      × ((allocate mgr i apn).ims_enabled ≡ mgr.ims_enabled)
      × ((j : ℕ) → i ≢ j → context_at (allocate mgr i apn) j ≡ context_at mgr j)
unfolding allocate
allocate_lem mgr i apn inside low = (
  ap (λ (c : ApnContext). c.apn) (get_or-set mgr.contexts i _ unused inside),
  omega arith,
  refl,
  λ j other. get_or-set_other mgr.contexts i j _ unused other,
)

empty_name : (apn : CString) → is_empty apn ≡ true → apn ≡ []
empty_name [] h = refl
empty_name (c ∷ apn) h = absurd (cc h)

module _ (mgr : Manager) (apn : CString) (ip_type : ℕ) (source : ContextSource) where
  abbrev Done : Manager × ℕ → ℕ → Type 0
  Done r place =
      Assigned mgr apn ip_type source place r
      × (Renewed mgr apn place r.0 ⊎ Created mgr apn place r.0)

  renew :
      (i : ℕ)
      → IsDense mgr
      → is_empty apn ≡ false
      → find_by_apn mgr apn ≡ some i
      → Done (assign mgr i apn ip_type source) i
  renew i h named e =
      let in_use = found_in_use mgr h apn i named e in
      let known = found-Named mgr apn i named e in
      let kept = assign-keeps mgr i apn ip_type source (omega (arith, h.size, h.high, in_use)) in
      (assign-Assigned mgr i apn ip_type source h in_use, inl (known.0, known.1, kept.0, kept.1))

  create :
      IsDense mgr
      → is_empty apn ≡ false
      → find_by_apn mgr apn ≡ none
      → mgr.next_id ≤ 16
      → Done
          (assign (allocate mgr (mgr.next_id - 1) apn) (mgr.next_id - 1) apn ip_type source)
          (mgr.next_id - 1)
  create h named unknown some_left =
      let i : ℕ = mgr.next_id - 1 in
      let table = allocate mgr i apn in
      let dense = allocate-IsDense mgr h apn some_left in
      let new = allocate_lem mgr i apn (omega (arith, h.size, h.low)) h.high in
      let a = assign-Assigned table i apn ip_type source dense (omega (arith, new.1, h.low)) in
      let kept = assign-keeps table i apn ip_type source (omega (arith, dense.size, h.low)) in
      let now : Manager = (assign table i apn ip_type source).0 in
      (
        record {
          table = a.table;
          id = a.id;
          found = a.found;
          kind = subst (λ (b : Bool). WantedKind b apn (context_at now i).kind) new.2 a.kind;
          ip = a.ip;
          same_source = a.same_source;
          same_ims = a.same_ims ∙ new.2;
          others = λ j other. a.others j other ∙ new.3 j other;
        },
        inr (
          none-Unknown mgr apn h.size named unknown,
          omega (arith, h.low),
          kept.0 ∙ new.0,
          kept.1 ∙ new.1,
        ),
      )

-- The three outcomes of an upsert into a dense table. A name that an entry in use has, but for its
-- capitals, renews the first such entry; another one is entered behind the entries in use, cut to 63
-- bytes; and either way the table is dense again, the id that is handed out finds the entry, which
-- has the wanted kind, source and IP type (1 if none is given), and no other entry is changed. The
-- call refuses only an empty name, and one that no entry has when all 16 are in use.
pub upsert-Entered :
    (mgr : Manager) (apn : CString) (ip_type : ℕ) (source : ContextSource)
    → IsDense mgr
    → ((r : Manager × ℕ) × (place : ℕ) × (upsert mgr apn ip_type source ≡ ok r)
        × Assigned mgr apn ip_type source place r
        × (Renewed mgr apn place r.0 ⊎ Created mgr apn place r.0))
      ⊎ ((upsert mgr apn ip_type source ≡ reject)
          × ((apn ≡ []) ⊎ (Unknown mgr apn × (mgr.next_id ≡ 17))))
unfolding upsert
upsert-Entered mgr apn ip_type source h = elim (Bool-cases (is_empty apn)) [
  | inl empty ↦ inr (rw empty refl, inl (empty_name apn empty))
  | inr named ↦ elim (option_cases (find_by_apn mgr apn)) [
    | inr (i, e) ↦
        let d = renew mgr apn ip_type source i h named e in
        inl (assign mgr i apn ip_type source, i, rw (named, e) refl, d.0, d.1)
    | inl unknown ↦ elim (Bool-cases (leb mgr.next_id 16)) [
      | inl room ↦
          let some_left = leb→le mgr.next_id 16 room in
          let i : ℕ = mgr.next_id - 1 in
          let d = create mgr apn ip_type source h named unknown some_left in
          inl (
            assign (allocate mgr i apn) i apn ip_type source,
            i,
            rw (named, unknown, free_place mgr h some_left) refl,
            d.0,
            d.1,
          )
      | inr full ↦
          let all : mgr.next_id ≡ 17 = ground (arith, h.high) in
          inr (
            rw (named, unknown, no_place mgr h all) refl,
            inr (none-Unknown mgr apn h.size named unknown, all),
          )
    ]
  ]
]
