-- ===== src/ImsIp/Tests.antt =====
-- Packets of ims_ip.c, built and parsed.
use virtuallte.Common.{
  ℕ, ◌+◌, ◌≡◌, refl, List, [], ◌∷◌, ◌++◌, length, drop, replicate, take, ok, reject, arith,
}
use virtuallte.ImsIp.{ipv4_header_checksum, parse_udp_ipv4, build_udp_ipv4}
use virtuallte.ImsIp.RoundTrip.{parse-build_udp_ipv4, header_checksum_lem}

abbrev room : List ℕ
room = replicate 40 7

abbrev host : List ℕ
host = 10 ∷ 0 ∷ 0 ∷ 2 ∷ []

abbrev proxy : List ℕ
proxy = 10 ∷ 0 ∷ 0 ∷ 1 ∷ []

abbrev sip : List ℕ
sip = 83 ∷ 73 ∷ 80 ∷ []

parse-build_udp_ipv4_example :
    (bytes : List ℕ) × (build_udp_ipv4 room host proxy 5060 5062 sip
      ≡ ok (bytes ++ drop (28 + length sip) room, 28 + length sip))
    × (length bytes ≡ 28 + length sip)
    × (parse_udp_ipv4 bytes
        ≡ ok (record {
          src_ip = host;
          dst_ip = proxy;
          src_port = 5060;
          dst_port = 5062;
          payload = sip;
        }))
parse-build_udp_ipv4_example =
    parse-build_udp_ipv4 room sip 10 0 0 2 10 0 0 1 5060 5062 (omega arith) (omega arith)
      (omega arith) (omega arith)

header_checksum_lem_example :
    (bytes : List ℕ) × (build_udp_ipv4 room host proxy 5060 5062 sip
      ≡ ok (bytes ++ drop (28 + length sip) room, 28 + length sip))
    × (ipv4_header_checksum (take 20 bytes) ≡ ok 0)
header_checksum_lem_example =
    header_checksum_lem room sip 10 0 0 2 10 0 0 1 5060 5062 (omega arith) (omega arith)
      (omega arith, (omega arith, (omega arith, (omega arith, tt))))
      (omega arith, (omega arith, (omega arith, (omega arith, tt))))

-- A short packet is refused.
short_packet : parse_udp_ipv4 host ≡ reject
unfolding parse_udp_ipv4
short_packet = refl
