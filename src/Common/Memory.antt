-- ===== src/Common/Memory.antt =====
-- Buffers as lists of bytes with checked accesses. A C function that answers with an error code is
-- `reject`; an access outside the buffer, which C leaves undefined, is `fault`.
use Prim.Native.Nat.{ℕ, ◌+◌, ◌≤◌, ◌<◌}
use mathlib.Core.Path.{sym, ◌≡◌, refl, ap, sym, ◌∙◌}
use mathlib.Core.Logic.{◌≢◌}
use mathlib.Core.List.{[], append-nil, List, [], ◌∷◌, ◌++◌}
use mathlib.Core.Option.{none, some}
use mathlib.Core.Bool.{Bool, true, false}
use native.Mathlib.Omega.{arith}
use virtuallte.Common.Tests.{leb, le→leb, if◌then◌else◌}
use virtuallte.Common.Lists.{
  length, get_elem?, get_elem?-append, get_or, get_elem?-eq-get_or, take, drop, take-append,
  drop-append, drop-append_add, length-append, length-drop, length-take, drop-drop, take_all,
}

pub data Outcome {ℓ} (A : Type ℓ) : Type ℓ where
  ok : A → Outcome A
  reject : Outcome A
  fault : Outcome A

infixl 5 ◌>>=◌
abbrev pub ◌>>=◌ {ℓ κ} : {A : Type ℓ} {B : Type κ} → Outcome A → (A → Outcome B) → Outcome B
ok a >>= f = f a
reject >>= f = reject
fault >>= f = fault

-- `p[i]` as a value.
abbrev pub read : List ℕ → ℕ → Outcome ℕ
read xs i = elim (get_elem? xs i) [ none ↦ fault | some b ↦ ok b ]

-- The `n` bytes from `p + i` on, as `memcpy` reads them.
abbrev pub read_bytes : List ℕ → ℕ → ℕ → Outcome (List ℕ)
read_bytes xs i n = if leb (i + n) (length xs) then ok (take n (drop i xs)) else fault

-- The bytes `new` stored from `p + i` on.
abbrev pub blit : List ℕ → ℕ → List ℕ → Outcome (List ℕ)
blit buf i new =
    if leb (i + length new) (length buf)
    then ok (take i buf ++ (new ++ drop (i + length new) buf))
    else fault

pub read_ok : (xs : List ℕ) (i : ℕ) → i < length xs → read xs i ≡ ok (get_or xs i 0)
read_ok xs i h = rw (get_elem?-eq-get_or xs i 0 h, read)

pub read_bytes_ok :
    (xs : List ℕ) (i n : ℕ) → i + n ≤ length xs → read_bytes xs i n ≡ ok (take n (drop i xs))
read_bytes_ok xs i n h = rw (le→leb _ _ h)

pub read_bytes_all : (xs : List ℕ) → read_bytes xs 0 (length xs) ≡ ok xs
read_bytes_all xs = read_bytes_ok xs 0 (length xs) (omega arith) ∙ ap ok (take_all xs)

-- A byte behind what is known of a buffer.
pub read-append : (xs ys : List ℕ) (b i : ℕ) → i ≡ length xs → read (xs ++ (b ∷ ys)) i ≡ ok b
read-append xs ys b i h = rw (get_elem?-append xs (b ∷ ys) 0 i (omega arith), read)

pub read_at :
    (pdu xs ys : List ℕ) (b i : ℕ) → pdu ≡ xs ++ (b ∷ ys) → i ≡ length xs → read pdu i ≡ ok b
read_at pdu xs ys b i e h = ap (λ p. read p i) e ∙ read-append xs ys b i h

-- A copy out of the middle of a buffer.
pub read_bytes-append :
    (xs ys zs : List ℕ) (i n : ℕ)
    → i ≡ length xs
    → n ≡ length ys
    → read_bytes (xs ++ (ys ++ zs)) i n ≡ ok ys
read_bytes-append xs ys zs i n hi hn =
    read_bytes_ok _ i n (omega (arith, length-append {0} xs (ys ++ zs), length-append {0} ys zs))
    ∙ ap ok (ap (take n) (drop-append xs (ys ++ zs) i hi) ∙ take-append ys zs n hn)

-- A copy of all that follows.
pub read_bytes_end :
    (xs ys : List ℕ) (i n : ℕ) → i ≡ length xs → n ≡ length ys → read_bytes (xs ++ ys) i n ≡ ok ys
read_bytes_end xs ys i n hi hn =
    ap (λ (t : List ℕ). read_bytes (xs ++ t) i n) (sym (append-nil ys))
    ∙ read_bytes-append xs ys [] i n hi hn

-- A store just behind what is written already extends it.
pub blit-append :
    (done rest new : List ℕ) (i : ℕ)
    → i ≡ length done
    → length new ≤ length rest
    → blit (done ++ rest) i new ≡ ok (done ++ (new ++ drop (length new) rest))
blit-append done rest new i hi h =
    rw
      (le→leb (i + length new) (length (done ++ rest)) (omega (arith, length-append {0} done rest)))
      (cc (take-append done rest i hi, drop-append_add done rest i (length new) hi))

-- The same, where what is behind is what the buffer held at the start.
pub blit_next :
    (done buf new : List ℕ) (n i : ℕ)
    → i ≡ length done
    → n + length new ≤ length buf
    → blit (done ++ drop n buf) i new ≡ ok (done ++ (new ++ drop (n + length new) buf))
blit_next done buf new n i hi h =
    blit-append done (drop n buf) new i hi (omega (arith, length-drop {0} n buf))
    ∙ ap (λ (t : List ℕ). ok (done ++ (new ++ t))) (drop-drop (length new) n buf)

pub blit_at :
    (now done buf new : List ℕ) (n i : ℕ)
    → now ≡ done ++ drop n buf
    → i ≡ length done
    → n + length new ≤ length buf
    → blit now i new ≡ ok (done ++ (new ++ drop (n + length new) buf))
blit_at now done buf new n i e hi h = rw e (blit_next done buf new n i hi h)

-- A store over bytes that the buffer holds already.
pub blit_over :
    (now done old rest new : List ℕ) (i : ℕ)
    → now ≡ done ++ (old ++ rest)
    → i ≡ length done
    → length new ≡ length old
    → blit now i new ≡ ok (done ++ (new ++ rest))
blit_over now done old rest new i e hi h = rw e (
    blit-append done (old ++ rest) new i hi (omega (arith, length-append {0} old rest))
    ∙ ap (λ (t : List ℕ). ok (done ++ (new ++ t))) (drop-append old rest (length new) h))

-- A step of a `do` block that is known to succeed.
pub bind_ok {ℓ κ} :
    {A : Type ℓ} {B : Type κ} (m : Outcome A) (f : A → Outcome B) {a : A} {r : Outcome B}
    → m ≡ ok a
    → f a ≡ r
    → (m >>= f) ≡ r
bind_ok m f e d = rw e d

-- What holds of a run that does not fault: `P` of its result, if it has one.
abbrev pub Safe {ℓ} : {A : Type ℓ} → (A → Type 0) → Outcome A → Type 0
Safe P (ok a) = P a
Safe P reject = Unit
Safe P fault = ⊥

pub Safe-bind {ℓ κ} :
    {A : Type ℓ} {B : Type κ} (P : A → Type 0) (Q : B → Type 0) (m : Outcome A) (f : A → Outcome B)
    → Safe P m
    → ((a : A) → P a → Safe Q (f a))
    → Safe Q (m >>= f)
Safe-bind P Q (ok a) f h k = k a h
Safe-bind P Q reject f h k = tt
Safe-bind P Q fault f h k = absurd h

pub Safe-ne-fault {ℓ} : {A : Type ℓ} (P : A → Type 0) (m : Outcome A) → Safe P m → m ≢ fault
Safe-ne-fault P (ok a) h = ground arith
Safe-ne-fault P reject h = ground arith
Safe-ne-fault P fault h = absurd h

pub Safe-if {ℓ} :
    {A : Type ℓ} (P : A → Type 0) (b : Bool) (x y : Outcome A)
    → (b ≡ true → Safe P x)
    → (b ≡ false → Safe P y)
    → Safe P (if b then x else y)
Safe-if P true x y h k = h refl
Safe-if P false x y h k = k refl

-- The same for accesses that are inside their buffers.
pub Safe-read {ℓ} :
    {A : Type ℓ} (P : A → Type 0) (xs : List ℕ) (i : ℕ) (f : ℕ → Outcome A)
    → i < length xs
    → ((b : ℕ) → Safe P (f b))
    → Safe P (read xs i >>= f)
Safe-read P xs i f h k = rw (read_ok xs i h) (k (get_or xs i 0))

pub Safe-read_bytes {ℓ} :
    {A : Type ℓ} (P : A → Type 0) (xs : List ℕ) (i n : ℕ) (f : List ℕ → Outcome A)
    → i + n ≤ length xs
    → ((bs : List ℕ) → length bs ≡ n → Safe P (f bs))
    → Safe P (read_bytes xs i n >>= f)
Safe-read_bytes P xs i n f h k =
    rw (read_bytes_ok xs i n h)
      (k _ (length-take n (drop i xs) (omega (arith, length-drop {0} i xs))))

pub Safe-blit {ℓ} :
    {A : Type ℓ} (P : A → Type 0) (buf : List ℕ) (i : ℕ) (new : List ℕ) (f : List ℕ → Outcome A)
    → i + length new ≤ length buf
    → ((bs : List ℕ) → length bs ≡ length buf → Safe P (f bs))
    → Safe P (blit buf i new >>= f)
Safe-blit P buf i new f h k = rw (le→leb (i + length new) (length buf) h) (
    k _ (
      omega (
        arith,
        length-append {0} (take i buf) (new ++ drop (i + length new) buf),
        length-append {0} new (drop (i + length new) buf),
        length-take i buf (omega arith),
        length-drop {0} (i + length new) buf,
      )))
