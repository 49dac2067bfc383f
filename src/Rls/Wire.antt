-- ===== src/Rls/Wire.antt =====
-- The pieces of the wire format of ue_rls.h, and how the helpers of ue_rls.c write and read them.
use virtuallte.Common.{
  ℕ, ◌+◌, ◌/◌, ◌%◌, ◌^◌, ◌≤◌, ◌<◌, ◌≡◌, List, [], ◌∷◌, ◌++◌, length, ok, arith, IsU32, IsU64, drop,
  blit-append, blit_next, get_elem?-append, length-drop,
}
use virtuallte.Rls.{be32, put_be32, put_be64, get_be32, get_be64, write_header, decode_body, decode}

abbrev pub be64 : ℕ → List ℕ
be64 v = be32 (v / 2 ^ 32 % 2 ^ 32) ++ be32 (v % 2 ^ 32)

-- The 13 bytes of a header.
abbrev pub header : ℕ → ℕ → List ℕ
header t sti = 3 ∷ 3 ∷ 2 ∷ 8 ∷ (t % 256) ∷ be64 sti

put_be32-append :
    (done rest : List ℕ) (off v : ℕ)
    → off ≡ length done
    → 4 ≤ length rest
    → put_be32 (done ++ rest) off v ≡ ok (done ++ (be32 v ++ drop 4 rest))
unfolding put_be32
put_be32-append done rest off v h k = blit-append done rest (be32 v) off h k

pub get_be32-append :
    (done rest : List ℕ) (off v : ℕ)
    → off ≡ length done
    → IsU32 v
    → get_be32 (done ++ (be32 v ++ rest)) off ≡ ok v
unfolding get_be32
get_be32-append done rest off v h k = ground (
  arith,
  get_elem?-append done (be32 v ++ rest) 0 off,
  get_elem?-append done (be32 v ++ rest) 1 (off + 1),
  get_elem?-append done (be32 v ++ rest) 2 (off + 2),
  get_elem?-append done (be32 v ++ rest) 3 (off + 3),
)

pub put_be32_next :
    (done buf : List ℕ) (n off v : ℕ)
    → off ≡ length done
    → n + 4 ≤ length buf
    → put_be32 (done ++ drop n buf) off v ≡ ok (done ++ (be32 v ++ drop (n + 4) buf))
unfolding put_be32
put_be32_next done buf n off v h k = blit_next done buf (be32 v) n off h k

pub write_header_lem :
    (buf : List ℕ) (t sti : ℕ)
    → 13 ≤ length buf
    → write_header buf t sti ≡ ok (header t sti ++ drop 13 buf)
unfolding write_header put_be64
write_header_lem buf t sti h =
    let first : List ℕ = 3 ∷ 3 ∷ 2 ∷ 8 ∷ (t % 256) ∷ [] in
    let hi = be32 (sti / 2 ^ 32 % 2 ^ 32) in
    ground (
      arith,
      blit-append [] buf first 0,
      put_be32-append first (drop 5 buf) 5 (sti / 2 ^ 32 % 2 ^ 32),
      put_be32-append (first ++ hi) (drop 4 (drop 5 buf)) 9 (sti % 2 ^ 32),
      length-drop 5 buf,
      length-drop 4 (drop 5 buf),
    )

-- Once the header is read the decoder goes on at the body.
pub decode-header :
    (t sti : ℕ) (body : List ℕ)
    → t < 256
    → IsU64 sti
    → decode (header t sti ++ body) ≡ decode_body t (header t sti ++ body) sti
unfolding decode get_be64
decode-header t sti body ht hs = ground (
  arith,
  get_be32-append (3 ∷ 3 ∷ 2 ∷ 8 ∷ (t % 256) ∷ []) (be32 (sti % 2 ^ 32) ++ body) 5
      (sti / 2 ^ 32 % 2 ^ 32),
  get_be32-append (3 ∷ 3 ∷ 2 ∷ 8 ∷ (t % 256) ∷ be32 (sti / 2 ^ 32 % 2 ^ 32)) body 9 (sti % 2 ^ 32),
)
