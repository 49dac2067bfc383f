-- ===== src/Apn/Dense.antt =====
-- What `apn_context_upsert` keeps true of the table of apn_context.c.
use virtuallte.Common.{
  ℕ, zero, suc, ◌+◌, ◌-◌, ◌≤◌, ◌<◌, ◌≡◌, inl, inr, ◌∙◌, refl, ap, sym, Bool, true, false, not, ◌&&◌,
  ◌==◌, ltb, if◌then◌else◌, none, some, [], ◌∷◌, length, length-set, set, take, get_or, replicate,
  CString, copy_string, is_empty, arith,
}
use virtuallte.Apn.{
  ApnContext, ContextSource, Manager, unused, context_at, manager_init, first, find_by_apn, assign,
  allocate, get_by_id, classify, same_name,
}
use virtuallte.Apn.Table.{first-IsFirst, first_lem, first_nothing, set-cases, Stored}

-- The used entries are the first ones, each has the number of its place as its id, and the names
-- fit their arrays.
pub record IsDense (mgr : Manager) : Type 0 where
  pub size : length mgr.contexts ≡ 16
  pub low : 1 ≤ mgr.next_id
  pub high : mgr.next_id ≤ 17
  pub dense : (i : ℕ) → i < 16 → (context_at mgr i).used ≡ ltb (i + 1) mgr.next_id
  pub ids : (i : ℕ) → i + 1 < mgr.next_id → (context_at mgr i).id ≡ i + 1
  pub short : (i : ℕ) → length (context_at mgr i).apn ≤ 63

length-take_le : (n : ℕ) (xs : CString) → length (take n xs) ≤ n
length-take_le zero xs = omega arith
length-take_le (suc n) [] = omega arith
length-take_le (suc n) (x ∷ xs) = omega (arith, length-take_le n xs)

unused_at : (n i : ℕ) → get_or (replicate n unused) i unused ≡ unused
unused_at zero i = refl
unused_at (suc n) zero = refl
unused_at (suc n) (suc i) = unused_at n i

pub manager_init-IsDense : (ims_enabled : Bool) → IsDense (manager_init ims_enabled)
unfolding manager_init
manager_init-IsDense ims_enabled = record {
  size = refl;
  low = omega arith;
  high = omega arith;
  dense = λ i h. ap (λ c. c.used) (unused_at 16 i) ∙ not_less i;
  ids = λ i h. absurd (omega arith);
  short = λ i. omega (arith, ap (λ (c : ApnContext). length c.apn) (unused_at 16 i));
}
  where
    not_less : (i : ℕ) → false ≡ ltb (i + 1) 1
    not_less i = ground arith

module _ (mgr : Manager) (h : IsDense mgr) where
  -- Where a new entry goes.
  pub free_place : mgr.next_id ≤ 16 → first (λ c. not c.used) mgr.contexts ≡ some (mgr.next_id - 1)
  free_place room = first_lem _ mgr.contexts (mgr.next_id - 1) (record {
    inside = omega (arith, h.size, h.low);
    passes = ground (arith, h.dense (mgr.next_id - 1), h.low);
    others = λ j k. ground (arith, h.dense j, h.low);
  })

  pub no_place : mgr.next_id ≡ 17 → first (λ c. not c.used) mgr.contexts ≡ none
  no_place full = first_nothing _ mgr.contexts (λ i k. ground (arith, h.dense i, h.size))

  pub assign-IsDense :
      (i : ℕ) (apn : CString) (ip_type : ℕ) (source : ContextSource)
      → i < 16
      → IsDense (assign mgr i apn ip_type source).0
  unfolding assign
  assign-IsDense i apn ip_type source k = record {
    size = length-set mgr.contexts i _ ∙ h.size;
    low = h.low;
    high = h.high;
    dense = λ j l. kept (λ c. c.used) j refl ∙ h.dense j l;
    ids = λ j l. kept (λ c. c.id) j refl ∙ h.ids j l;
    short = λ j. omega (arith, kept (λ c. length c.apn) j refl, h.short j);
  }
    where
      ctx : ApnContext
      ctx = record (context_at mgr i) {
        ip_type = if ip_type == 0 then 1 else ip_type;
        source = source;
        kind = classify mgr apn;
      }

      kept :
          {A : Type 0} (f : ApnContext → A) (j : ℕ)
          → f ctx ≡ f (context_at mgr i)
          → f (get_or (set mgr.contexts i ctx) j unused) ≡ f (context_at mgr j)
      kept f j e = elim (set-cases mgr.contexts i j ctx (omega (arith, h.size))) [
        | inl (here, new) ↦ ap f new ∙ e ∙ ap (λ k. f (context_at mgr k)) (sym here)
        | inr (there, old) ↦ ap f old
      ]

  pub allocate-IsDense :
      (apn : CString) → mgr.next_id ≤ 16 → IsDense (allocate mgr (mgr.next_id - 1) apn)
  unfolding allocate
  allocate-IsDense apn room = record {
    size = length-set mgr.contexts n _ ∙ h.size;
    low = omega arith;
    high = omega arith;
    dense = λ j l. elim (at j) [
      | inl (here, new) ↦ ap (λ (c : ApnContext). c.used) new ∙ ground arith
      | inr (there, old) ↦ ap (λ (c : ApnContext). c.used) old ∙ h.dense j l ∙ ground arith
    ];
    ids = λ j l. elim (at j) [
      | inl (here, new) ↦ ap (λ (c : ApnContext). c.id) new ∙ omega arith
      | inr (there, old) ↦ ap (λ (c : ApnContext). c.id) old ∙ h.ids j (omega arith)
    ];
    short = λ j. elim (at j) [
      | inl (here, new) ↦
          omega (arith, ap (λ (c : ApnContext). length c.apn) new, length-take_le 63 apn)
      | inr (there, old) ↦ omega (arith, ap (λ (c : ApnContext). length c.apn) old, h.short j)
    ];
  }
    where
      n : ℕ
      n = mgr.next_id - 1

      fresh : ApnContext
      fresh = record unused { used = true; id = mgr.next_id; apn = copy_string 64 apn }

      at : (j : ℕ) → Stored mgr.contexts n j fresh
      at j = set-cases mgr.contexts n j fresh (omega (arith, h.size))

  pub found_in_use :
      (apn : CString) (i : ℕ)
      → is_empty apn ≡ false
      → find_by_apn mgr apn ≡ some i
      → i + 1 < mgr.next_id
  unfolding find_by_apn
  found_in_use apn i named e =
      let found : first (λ c. c.used && same_name c.apn apn) mgr.contexts ≡ some i =
        ground (arith, named, e) in
      let f = first-IsFirst _ mgr.contexts i found in
      let taken : (context_at mgr i).used ≡ true = ground (arith, f.passes) in
      ground (arith, taken, h.dense i, f.inside, h.size)

  -- An id that is in use finds its entry.
  pub by_id : (i : ℕ) → i + 1 < mgr.next_id → get_by_id mgr (i + 1) ≡ some (context_at mgr i)
  unfolding get_by_id
  by_id i k =
      let found : first (λ c. c.used && c.id == i + 1) mgr.contexts ≡ some i =
        first_lem _ mgr.contexts i (record {
          inside = omega (arith, h.size, h.high);
          passes = ground (arith, h.dense i, h.ids i k, h.high);
          others = λ j l. ground (arith, h.ids j (omega arith));
        }) in
      let positive : (i + 1 == 0) ≡ false = ground arith in rw (positive, found) refl
