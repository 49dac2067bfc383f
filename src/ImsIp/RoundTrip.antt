-- ===== src/ImsIp/RoundTrip.antt =====
-- What `ims_ip_build_udp_ipv4` writes, and what `ims_ip_parse_udp_ipv4` makes of it.
use virtuallte.Common.{
  ℕ, suc, ◌+◌, ◌-◌, ◌*◌, ◌/◌, ◌%◌, ◌^◌, ◌≤◌, ◌<◌, ◌≡◌, refl, List, [], ◌∷◌, ◌++◌, length, ok, arith,
  ◌==◌, if◌then◌else◌, ◌∙◌, ltb, drop, replicate, replicate_add, length-replicate, blit, blit_next,
  blit_over, bind_ok, read_bytes-append, ap, append_assoc, IsU16, le→not-ltb, true, read_bytes_end,
  sym, IsBytes, take,
}
use virtuallte.ImsIp.{
  UdpPacket, rd16, be16, wr16, checksum_add, checksum_finish, ipv4_header_checksum,
  udp_checksum_ipv4, parse_udp, parse_udp_ipv4, write_ip, write_udp, build_udp_ipv4,
}
use virtuallte.ImsIp.Checksum.{
  checksum_add-words, words, checksum_finish_zero, checksum_add-IsU32, checksum_finish-total,
}

-- The IP header, with the checksum field `x`.
abbrev pub ip_header : ℕ → ℕ → List ℕ → List ℕ → List ℕ
ip_header total x src dst =
    69 ∷ 0 ∷ (be16 total ++ (0 ∷ 0 ∷ 64 ∷ 0 ∷ 64 ∷ 17 ∷ (be16 x ++ (src ++ dst))))

abbrev pub udp_header : ℕ → ℕ → ℕ → ℕ → List ℕ
udp_header sport dport len x = be16 sport ++ (be16 dport ++ (be16 len ++ be16 x))

-- All zero, as `memset` leaves the packet.
clear :
    (out : List ℕ) (n : ℕ)
    → 28 + n ≤ length out
    → blit out 0 (replicate (28 + n) 0)
      ≡ ok (replicate 28 0 ++ (replicate n 0 ++ drop (28 + n) out))
clear out n h =
    let len : length {A = ℕ} (replicate (28 + n) 0) ≡ 28 + n =
      length-replicate {A = ℕ} (28 + n) 0 in
    let end : 0 + length {A = ℕ} (replicate (28 + n) 0) ≡ 28 + n = omega (arith, len) in
    blit_next [] out (replicate (28 + n) 0) 0 0 refl (omega (arith, len))
    ∙ ap ok (
        ap (λ k. replicate {A = ℕ} (28 + n) 0 ++ drop k out) end
        ∙ (ap (λ (t : List ℕ). t ++ drop (28 + n) out) (replicate_add {A = ℕ} 28 n 0)
            ∙ append_assoc (replicate {A = ℕ} 28 0) (replicate n 0) (drop (28 + n) out)))

not_empty : (n : ℕ) → ltb 0 (suc n) ≡ true
not_empty n = ground arith

store_payload :
    (payload now done rest : List ℕ)
    → now ≡ done ++ (replicate (length payload) 0 ++ rest)
    → 28 ≡ length done
    → (if ltb 0 (length payload) then blit now 28 payload else ok now)
      ≡ ok (done ++ (payload ++ rest))
store_payload [] now done rest e h = ap ok e
store_payload (x ∷ xs) now done rest e h = rw (not_empty (length xs)) (
    blit_over now done (replicate (suc (length xs)) 0) rest (x ∷ xs) 28 e h
      (sym (length-replicate {A = ℕ} (suc (length xs)) 0)))

module _ (out payload : List ℕ) (s0 s1 s2 s3 d0 d1 d2 d3 sport dport : ℕ) where
  abbrev src : List ℕ
  src = s0 ∷ s1 ∷ s2 ∷ s3 ∷ []

  abbrev dst : List ℕ
  dst = d0 ∷ d1 ∷ d2 ∷ d3 ∷ []

  abbrev n : ℕ
  n = length payload

  -- The UDP header and the payload, before they are written, and what is behind the packet.
  abbrev behind : List ℕ
  behind = replicate n 0 ++ drop (28 + n) out

  write_ip_lem :
      (c : ℕ)
      → 28 + n ≤ length out
      → n ≤ 65507
      → ipv4_header_checksum (ip_header (28 + n) 0 src dst) ≡ ok c
      → write_ip out (28 + n) src dst
        ≡ ok (ip_header (28 + n) c src dst ++ (replicate 8 0 ++ behind))
  unfolding write_ip wr16
  write_ip_lem c room small sum =
      let size : (28 + n) % 2 ^ 16 ≡ 28 + n = omega arith in
      let t : List ℕ = 69 ∷ 0 ∷ be16 (28 + n) in
      let u : List ℕ = t ++ (0 ∷ 0 ∷ 64 ∷ 0 ∷ 64 ∷ 17 ∷ []) in
      let zz : List ℕ = 0 ∷ 0 ∷ [] in
      let z4 : List ℕ = 0 ∷ 0 ∷ 0 ∷ 0 ∷ [] in
      let rest : List ℕ = replicate 8 0 ++ behind in
      rw size (
        bind_ok _ _ (clear out n room) (
          bind_ok _ _ (blit_over _ [] zz (replicate 18 0 ++ rest) (69 ∷ 0 ∷ []) 0 refl refl refl) (
            bind_ok _ _
              (blit_over _ (69 ∷ 0 ∷ []) zz (replicate 16 0 ++ rest) (be16 (28 + n)) 2 refl refl
                refl)
              (bind_ok _ _ (blit_over _ t zz (replicate 14 0 ++ rest) zz 4 refl refl refl) (
                bind_ok _ _
                  (blit_over _ (t ++ zz) zz (replicate 12 0 ++ rest) (64 ∷ 0 ∷ []) 6 refl refl refl)
                  (bind_ok _ _
                    (blit_over _ (t ++ (0 ∷ 0 ∷ 64 ∷ 0 ∷ [])) zz (replicate 10 0 ++ rest)
                      (64 ∷ 17 ∷ []) 8 refl refl refl)
                    (bind_ok _ _
                      (blit_over _ (u ++ zz) z4 (replicate 4 0 ++ rest) src 12 refl refl refl)
                      (bind_ok _ _ (blit_over _ (u ++ (zz ++ src)) z4 rest dst 16 refl refl refl) (
                        bind_ok _ _
                          (read_bytes-append [] (ip_header (28 + n) 0 src dst) rest 0 20 refl refl)
                          (bind_ok _ _ sum (
                            blit_over _ u zz (src ++ (dst ++ rest)) (be16 c) 10 refl refl
                              refl)))))))))))

  -- The datagram with the checksum field `x`.
  abbrev datagram : ℕ → List ℕ
  datagram x = udp_header sport dport (8 + n) x ++ payload

  abbrev packet : ℕ → ℕ → List ℕ
  packet y x = ip_header (28 + n) y src dst ++ datagram x

  write_udp_lem :
      (y c : ℕ)
      → n ≤ 65507
      → udp_checksum_ipv4 src dst (datagram 0) ≡ ok c
      → write_udp
          (ip_header (28 + n) y src dst ++ (replicate 8 0 ++ behind))
          (8 + n)
          src
          dst
          sport
          dport
          payload
        ≡ ok (packet y (if c == 0 then 65535 else c) ++ drop (28 + n) out)
  unfolding write_udp wr16
  write_udp_lem y c small sum =
      let size : (8 + n) % 2 ^ 16 ≡ 8 + n = omega arith in
      let ip : List ℕ = ip_header (28 + n) y src dst in
      let zz : List ℕ = 0 ∷ 0 ∷ [] in
      let end : List ℕ = drop (28 + n) out in
      let x : ℕ = if c == 0 then 65535 else c in
      let ports : List ℕ = be16 sport ++ be16 dport in
      let fields : List ℕ = be16 sport ++ (be16 dport ++ be16 (8 + n)) in
      let all : 8 + n ≡ length (datagram 0) = omega arith in
      rw size (
        bind_ok _ _ (blit_over _ ip zz (replicate 6 0 ++ behind) (be16 sport) 20 refl refl refl) (
          bind_ok _ _
            (blit_over _ (ip ++ be16 sport) zz (replicate 4 0 ++ behind) (be16 dport) 22 refl refl
              refl)
            (bind_ok _ _
              (blit_over _ (ip ++ ports) zz (zz ++ behind) (be16 (8 + n)) 24 refl refl refl)
              (bind_ok _ _
                (store_payload payload _ (ip ++ udp_header sport dport (8 + n) 0) end refl refl)
                (bind_ok _ _ (read_bytes-append ip (datagram 0) end 20 (8 + n) refl all) (
                  bind_ok _ _ sum (
                    blit_over _ (ip ++ fields) zz (payload ++ end) (be16 x) 26 refl refl refl)))))))

  -- The packet, and how it is parsed.
  pub build_lem :
      28 + n ≤ length out
      → n ≤ 65507
      → (y : ℕ) × (x : ℕ) × (build_udp_ipv4 out src dst sport dport payload
          ≡ ok (packet y x ++ drop (28 + n) out, 28 + n))
        × (ipv4_header_checksum (ip_header (28 + n) 0 src dst) ≡ ok y)
  unfolding build_udp_ipv4 ipv4_header_checksum udp_checksum_ipv4
  build_lem room small =
      let size : 20 + (8 + n) ≡ 28 + n = omega arith in
      let f =
        checksum_finish-total _
          (checksum_add-IsU32 0 (ip_header (28 + n) 0 src dst) (omega arith)) in
      let pseudo : List ℕ = src ++ (dst ++ (0 ∷ 17 ∷ be16 (length (datagram 0) % 2 ^ 16))) in
      let g = checksum_finish-total _ (
        checksum_add-IsU32 (checksum_add 0 pseudo) (datagram 0)
          (checksum_add-IsU32 0 pseudo (omega arith))) in
      (
        f.0,
        if g.0 == 0 then 65535 else g.0,
        rw (le→not-ltb 65507 n small, size, le→not-ltb (length out) (28 + n) room)
            (bind_ok _ _ (write_ip_lem f.0 room small f.1)
              (bind_ok _ _ (write_udp_lem f.0 g.0 small g.1) refl)),
        f.1,
      )

  abbrev sent : UdpPacket
  sent = record {
    src_ip = src;
    dst_ip = dst;
    src_port = sport;
    dst_port = dport;
    payload = payload;
  }

  octets : (v : ℕ) → v < 2 ^ 16 → v / 2 ^ 8 % 2 ^ 8 * 2 ^ 8 + v % 2 ^ 8 ≡ v
  octets v h = omega arith

  parse_udp-packet :
      (y x : ℕ)
      → n ≤ 65507
      → IsU16 sport
      → IsU16 dport
      → parse_udp (packet y x) 20 (28 + n) ≡ ok sent
  unfolding parse_udp rd16
  parse_udp-packet y x small hs hd =
      let front : List ℕ = 69 ∷ 0 ∷ (be16 (28 + n) ++ (0 ∷ 0 ∷ 64 ∷ 0 ∷ 64 ∷ 17 ∷ be16 y)) in
      let head : List ℕ = ip_header (28 + n) y src dst ++ udp_header sport dport (8 + n) x in
      let left : 8 + n - 8 ≡ n = omega arith in
      rw
        (
          octets (8 + n) (omega arith),
          le→not-ltb (8 + n) 8 (omega arith),
          le→not-ltb (28 + n) (20 + (8 + n)) (omega arith),
          left,
        )
        (bind_ok _ _ (read_bytes-append front src (dst ++ datagram x) 12 4 refl refl) (
          bind_ok _ _ (read_bytes-append (front ++ src) dst (datagram x) 16 4 refl refl) (
            rw (octets sport hs, octets dport hd)
              (bind_ok _ _ (read_bytes_end head payload 28 n refl refl) refl))))

  pub parse-packet :
      (y x : ℕ) → n ≤ 65507 → IsU16 sport → IsU16 dport → parse_udp_ipv4 (packet y x) ≡ ok sent
  unfolding parse_udp_ipv4 rd16
  parse-packet y x small hs hd =
      let long : length (packet y x) ≡ 28 + n = omega arith in
      ground (arith, octets (28 + n) (omega arith), long, parse_udp-packet y x small hs hd)

  -- A payload of up to 65507 bytes is built into a packet of 28 bytes more, at the start of a buffer
  -- that has room for it, with the rest of the buffer left alone; that packet parses to the same
  -- addresses, ports and payload.
  pub parse-build_udp_ipv4 :
      28 + n ≤ length out
      → n ≤ 65507
      → IsU16 sport
      → IsU16 dport
      → (bytes : List ℕ) × (build_udp_ipv4 out src dst sport dport payload
          ≡ ok (bytes ++ drop (28 + n) out, 28 + n))
        × (length bytes ≡ 28 + n)
        × (parse_udp_ipv4 bytes ≡ ok sent)
  parse-build_udp_ipv4 room small hs hd =
      let b = build_lem room small in
      (packet b.0 b.1, b.2, omega arith, parse-packet b.0 b.1 small hs hd)

  header_words :
      (c : ℕ)
      → c < 2 ^ 16
      → IsBytes src
      → IsBytes dst
      → checksum_add 0 (ip_header (28 + n) c src dst) ≡ words (ip_header (28 + n) 0 src dst) + c
  header_words c h hs hd =
      let hi : (v : ℕ) → v / 2 ^ 8 % 2 ^ 8 < 256 = λ v. omega arith in
      let lo : (v : ℕ) → v % 2 ^ 8 < 256 = λ v. omega arith in
      let bytes : IsBytes (ip_header (28 + n) c src dst) = (
        omega arith,
        (
          omega arith,
          (
            hi (28 + n),
            (
              lo (28 + n),
              (
                omega arith,
                (
                  omega arith,
                  (
                    omega arith,
                    (
                      omega arith,
                      (
                        omega arith,
                        (
                          omega arith,
                          (hi c, (lo c, (hs.0, (hs.1.0, (hs.1.1.0, (hs.1.1.1.0, hd)))))),
                        ),
                      ),
                    ),
                  ),
                ),
              ),
            ),
          ),
        ),
      ) in
      omega
        (arith, checksum_add-words 0 (ip_header (28 + n) c src dst) bytes (omega arith), octets c h)

  -- With addresses of bytes, the checksum of the IP header that is built comes out as 0: the receiver's test.
  pub header_checksum_lem :
      28 + n ≤ length out
      → n ≤ 65507
      → IsBytes src
      → IsBytes dst
      → (bytes : List ℕ) × (build_udp_ipv4 out src dst sport dport payload
          ≡ ok (bytes ++ drop (28 + n) out, 28 + n))
        × (ipv4_header_checksum (take 20 bytes) ≡ ok 0)
  unfolding ipv4_header_checksum
  header_checksum_lem room small hs hd =
      let b = build_lem room small in
      let y : ℕ = b.0 in
      let w : ℕ = words (ip_header (28 + n) 0 src dst) in
      let s0_small : s0 < 256 = hs.0 in
      let s1_small : s1 < 256 = hs.1.0 in
      let s2_small : s2 < 256 = hs.1.1.0 in
      let s3_small : s3 < 256 = hs.1.1.1.0 in
      let d0_small : d0 < 256 = hd.0 in
      let d1_small : d1 < 256 = hd.1.0 in
      let d2_small : d2 < 256 = hd.1.1.0 in
      let d3_small : d3 < 256 = hd.1.1.1.0 in
      let sum0 : checksum_add 0 (ip_header (28 + n) 0 src dst) ≡ w =
        omega (arith, header_words 0 (omega arith) hs hd) in
      let z = checksum_finish_zero w y (omega arith) (ap checksum_finish (sym sum0) ∙ b.3) in
      (packet b.0 b.1, b.2, ap checksum_finish (header_words y z.0 hs hd) ∙ z.1)
