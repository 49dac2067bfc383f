-- ===== src/Apn.antt =====
-- src/apn_context/apn_context.c: the access point names that the host and the IMS service ask for.
-- `strcasecmp` of the C library compares the bytes of two strings without the case of ASCII
-- letters. An entry of the table is named by its index, where the source has a pointer.
pub mod Table
pub mod Dense
pub mod Names
pub mod Upsert
mod Tests
use virtuallte.Common.{
  ℕ, zero, suc, ◌+◌, ◌%◌, ◌^◌, Bool, true, false, not, ◌&&◌, ◌==◌, leb, if◌then◌else◌, Option, none,
  some, List, [], ◌∷◌, set, get_or, replicate, CString, copy_string, is_empty, Outcome, ok, reject,
}

-- `enum apn_context_kind`
pub data ContextKind : Type 0 where
  host_data ims_internal : ContextKind

-- `enum apn_context_source`
pub data ContextSource : Type 0 where
  host_provisioned host_lte_attach host_connect internal : ContextSource

-- `struct apn_context`; an IP type is its number, which is 0 in an unused entry only.
pub record ApnContext : Type 0 where
  pub used : Bool
  pub id : ℕ
  pub apn : CString
  pub ip_type : ℕ
  pub source : ContextSource
  pub kind : ContextKind

abbrev pub unused : ApnContext
unused = record {
  used = false;
  id = 0;
  apn = [];
  ip_type = 0;
  source = ContextSource.host_provisioned;
  kind = ContextKind.host_data;
}

-- `struct apn_context_manager`
pub record Manager : Type 0 where
  pub ims_enabled : Bool
  pub next_id : ℕ
  pub contexts : List ApnContext

abbrev pub context_max : ℕ
context_max = 16

abbrev pub apn_max : ℕ
apn_max = 64

-- `apn_context_manager_init`
pub manager_init : Bool → Manager
manager_init ims_enabled = record {
  ims_enabled = ims_enabled;
  next_id = 1;
  contexts = replicate context_max unused;
}

abbrev pub lower : ℕ → ℕ
lower c = if leb 65 c && leb c 90 then c + 32 else c

-- `!strcasecmp(a, b)`
abbrev pub same_name : CString → CString → Bool
same_name [] [] = true
same_name [] (d ∷ b) = false
same_name (c ∷ a) [] = false
same_name (c ∷ a) (d ∷ b) = lower c == lower d && same_name a b

abbrev pub ims_name : CString
ims_name = b'i' ∷ b'm' ∷ b's' ∷ []

-- `apn_context_classify`
pub classify : Manager → CString → ContextKind
classify mgr apn =
    if mgr.ims_enabled && same_name apn ims_name
    then ContextKind.ims_internal
    else ContextKind.host_data

-- The index of the first entry that a test takes: what the loops over the table look for.
pub first : (ApnContext → Bool) → List ApnContext → Option ℕ
first p [] = none
first p (c ∷ cs) = if p c then some 0 else elim (first p cs) [ none ↦ none | some i ↦ some (i + 1) ]

abbrev pub context_at : Manager → ℕ → ApnContext
context_at mgr i = get_or mgr.contexts i unused

-- `find_by_apn`
pub find_by_apn : Manager → CString → Option ℕ
find_by_apn mgr apn =
    if is_empty apn then none else first (λ c. c.used && same_name c.apn apn) mgr.contexts

-- The last assignments of `apn_context_upsert`, to the entry at `i`, and the id that it hands out.
pub assign : Manager → ℕ → CString → ℕ → ContextSource → Manager × ℕ
assign mgr i apn ip_type source =
    let ctx : ApnContext = record (context_at mgr i) {
      ip_type = if ip_type == 0 then 1 else ip_type;
      source = source;
      kind = classify mgr apn;
    } in
    (record mgr { contexts = set mgr.contexts i ctx }, ctx.id)

-- The new entry at `i`.
pub allocate : Manager → ℕ → CString → Manager
allocate mgr i apn = record mgr {
  next_id = (mgr.next_id + 1) % 2 ^ 32;
  contexts =
      set mgr.contexts i
        (record unused { used = true; id = mgr.next_id; apn = copy_string apn_max apn });
}

-- `apn_context_upsert`
pub upsert : Manager → CString → ℕ → ContextSource → Outcome (Manager × ℕ)
upsert mgr apn ip_type source = if is_empty apn then reject else elim (find_by_apn mgr apn) [
  | some i ↦ ok (assign mgr i apn ip_type source)
  | none ↦ elim (first (λ c. not c.used) mgr.contexts) [
    | none ↦ reject
    | some i ↦ ok (assign (allocate mgr i apn) i apn ip_type source)
  ]
]

-- `apn_context_get_ims`
pub get_ims : Manager → Option ApnContext
get_ims mgr = elim (first (λ c. c.used && is_ims c.kind) mgr.contexts) [
  | none ↦ none
  | some i ↦ some (context_at mgr i)
]
  where
    is_ims : ContextKind → Bool
    is_ims ContextKind.host_data = false
    is_ims ContextKind.ims_internal = true

-- `apn_context_get_by_id`
pub get_by_id : Manager → ℕ → Option ApnContext
get_by_id mgr id = if id == 0 then none else elim (first (λ c. c.used && c.id == id) mgr.contexts) [
  | none ↦ none
  | some i ↦ some (context_at mgr i)
]
