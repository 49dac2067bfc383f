-- ===== src/NasEncode/Writes.antt =====
-- What a run of writes leaves in the buffer.
use virtuallte.Common.{
  ℕ, ◌+◌, ◌≤◌, ◌≡◌, refl, sym, ap, ◌∙◌, Bool, true, false, if◌then◌else◌, List, [], ◌++◌,
  append-nil, append_assoc, length, length-append, drop, Outcome, ok, ◌>>=◌, blit_at, arith, ◌<◌,
  leb, fault, length-drop,
}
use mathlib.Core.Path.{subst}
use virtuallte.NasEncode.Cursor.{Cursor, at_start, put, finish}

-- `done` is written at the start of `buf`, and the rest of it is as it was.
pub record Written (buf done : List ℕ) (c : Cursor) : Type 0 where
  pub content : c.buf ≡ done ++ drop (length done) buf
  pub position : c.pos ≡ length done

-- An operation writes `out` behind what is written, where the buffer has room for it, and answers
-- with `k` of the cursor.
abbrev pub Emits {ℓ} : {A : Type ℓ} → (Cursor → A) → (Cursor → Outcome A) → List ℕ → Type ℓ
Emits k f out =
    (buf done : List ℕ) (c : Cursor)
    → Written buf done c
    → length done + length out ≤ length buf
    → (c' : Cursor) × (f c ≡ ok (k c')) × Written buf (done ++ out) c'

abbrev pub here : Cursor → Cursor
here c = c

pub put-Emits : (bytes : List ℕ) → Emits here (λ c. put c bytes) bytes
unfolding put
put-Emits bytes buf done c w room =
    let size = length-append {A = ℕ} done bytes in
    let next : List ℕ = done ++ (bytes ++ drop (length done + length bytes) buf) in
    let stored = blit_at c.buf done buf bytes (length done) c.pos w.content w.position room in
    (
      record { buf = next; pos = c.pos + length bytes },
      rw stored refl,
      record {
        content =
            sym (append_assoc done bytes (drop (length done + length bytes) buf))
            ∙ ap (λ n. (done ++ bytes) ++ drop n buf) (sym size);
        position = omega (arith, size, w.position);
      },
    )

pub Emits-bind {ℓ} :
    {A : Type ℓ} (k : Cursor → A) (f : Cursor → Outcome Cursor) (g : Cursor → Outcome A)
    (xs ys : List ℕ)
    → Emits here f xs
    → Emits k g ys
    → Emits k (λ c. f c >>= g) (xs ++ ys)
Emits-bind k f g xs ys ef eg buf done c w room =
    let size = length-append {A = ℕ} xs ys in
    let size' = length-append {A = ℕ} done xs in
    let a = ef buf done c w (omega (arith, size)) in
    let b = eg buf (done ++ xs) a.0 a.2 (omega (arith, size, size')) in
    (b.0, rw (a.1) b.1, subst (λ (t : List ℕ). Written buf t b.0) (append_assoc done xs ys) b.2)

pub Emits-ok {ℓ} : {A : Type ℓ} (k : Cursor → A) → Emits k (λ c. ok (k c)) []
Emits-ok k buf done c w room =
    (c, refl, subst (λ (t : List ℕ). Written buf t c) (sym (append-nil done)) w)

-- An optional field.
pub put_if-Emits :
    (b : Bool) (bytes : List ℕ)
    → Emits here (λ c. if b then put c bytes else ok c) (if b then bytes else [])
put_if-Emits true bytes = put-Emits bytes
put_if-Emits false bytes = Emits-ok here

abbrev pub message : Cursor → List ℕ × ℕ
message c = (c.buf, c.pos)

-- One more field of a message.
pub field :
    (bytes : List ℕ) (g : Cursor → Outcome (List ℕ × ℕ)) (out : List ℕ)
    → Emits message g out
    → Emits message (λ c. put c bytes >>= g) (bytes ++ out)
field bytes g out e = Emits-bind message (λ c. put c bytes) g bytes out (put-Emits bytes) e

pub field_if :
    (b : Bool) (bytes : List ℕ) (g : Cursor → Outcome (List ℕ × ℕ)) (out : List ℕ)
    → Emits message g out
    → Emits message
        (λ c. (if b then put c bytes else ok c) >>= g)
        ((if b then bytes else []) ++ out)
field_if b bytes g out e =
    Emits-bind message (λ c. if b then put c bytes else ok c) g (if b then bytes else []) out
      (put_if-Emits b bytes) e

pub last : Emits message finish []
last = Emits-ok message

pub at_start-Written : (buf : List ℕ) → Written buf [] (at_start buf)
at_start-Written buf = record { content = refl; position = refl }

-- A whole message.
pub from_start :
    (f : Cursor → Outcome (List ℕ × ℕ)) (out buf : List ℕ)
    → Emits message f out
    → length out ≤ length buf
    → f (at_start buf) ≡ ok (out ++ drop (length out) buf, length out)
from_start f out buf e room =
    let a = e buf [] (at_start buf) (at_start-Written buf) (omega arith) in
    let content : a.0.buf ≡ out ++ drop (length out) buf = a.2.content in
    let position : a.0.pos ≡ length out = a.2.position in a.1 ∙ cc

pub Written-size :
    (buf done : List ℕ) (c : Cursor)
    → Written buf done c
    → length done ≤ length buf
    → length c.buf ≡ length buf
Written-size buf done c w fits =
    ap length w.content
    ∙ (length-append {A = ℕ} done (drop (length done) buf)
        ∙ omega (arith, length-drop {A = ℕ} (length done) buf))

-- A write that does not fit in the buffer goes past its end.
pub put-overrun :
    (bytes buf done : List ℕ) (c : Cursor)
    → Written buf done c
    → length done ≤ length buf
    → length buf < length done + length bytes
    → put c bytes ≡ fault
unfolding put
put-overrun bytes buf done c w fits over =
    let size = Written-size buf done c w fits in
    let test : leb (c.pos + length bytes) (length c.buf) ≡ false = ground (arith, w.position) in
    rw test refl
