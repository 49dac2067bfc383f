-- ===== src/ImsIp.antt =====
-- src/ims_service/ims_ip.c: UDP over IPv4 as the IMS service parses and builds it.
-- A buffer is a list of bytes. A pointer into a packet with a length is the bytes themselves. The
-- error codes are all `reject`.
pub mod Checksum
pub mod RoundTrip
pub mod Safety
mod Tests
use virtuallte.Common.{
  ℕ, zero, suc, ◌+◌, ◌-◌, ◌*◌, ◌/◌, ◌%◌, ◌^◌, Bool, true, false, not, ◌||◌, ◌&&◌, ◌==◌, ltb,
  if◌then◌else◌, List, [], ◌∷◌, ◌++◌, length, replicate, Outcome, ok, reject, fault, ◌>>=◌, read,
  read_bytes, blit,
}

-- `struct ims_udp_packet`
pub record UdpPacket : Type 0 where
  pub src_ip : List ℕ
  pub dst_ip : List ℕ
  pub src_port : ℕ
  pub dst_port : ℕ
  pub payload : List ℕ

unfoldable pub rd16 : List ℕ → ℕ → Outcome ℕ
rd16 p off = do a ← read p off; b ← read p (off + 1); ok (a * 2 ^ 8 + b)

abbrev pub be16 : ℕ → List ℕ
be16 v = v / 2 ^ 8 % 2 ^ 8 ∷ v % 2 ^ 8 ∷ []

unfoldable pub wr16 : List ℕ → ℕ → ℕ → Outcome (List ℕ)
wr16 p off v = blit p off (be16 v)

-- The sum is computed in 32 bits. The data with its length is the list.
unfoldable pub checksum_add : ℕ → List ℕ → ℕ
checksum_add sum [] = sum
checksum_add sum (a ∷ []) = (sum + a * 2 ^ 8) % 2 ^ 32
checksum_add sum (a ∷ b ∷ rest) = checksum_add ((sum + (a * 2 ^ 8 + b)) % 2 ^ 32) rest

-- The loop of `checksum_finish`, on fuel.
unfoldable pub fold_carry : ℕ → ℕ → Outcome ℕ
fold_carry zero sum = fault
fold_carry (suc n) sum =
    let rest = fold_carry n ((sum % 2 ^ 16 + sum / 2 ^ 16) % 2 ^ 32) in
    if sum / 2 ^ 16 == 0 then ok sum else rest

-- A sum of 32 bits has folded into 16 after two rounds.
unfoldable pub checksum_finish : ℕ → Outcome ℕ
checksum_finish sum = do sum ← fold_carry 3 sum; ok ((2 ^ 32 - 1 - sum) % 2 ^ 16)

unfoldable pub ipv4_header_checksum : List ℕ → Outcome ℕ
ipv4_header_checksum hdr = checksum_finish (checksum_add 0 hdr)

-- The pseudo header takes four bytes of each address.
unfoldable pub udp_checksum_ipv4 : List ℕ → List ℕ → List ℕ → Outcome ℕ
udp_checksum_ipv4 src_ip dst_ip udp = do
  src ← read_bytes src_ip 0 4
  dst ← read_bytes dst_ip 0 4
  let pseudo : List ℕ = src ++ (dst ++ (0 ∷ 17 ∷ be16 (length udp % 2 ^ 16)))
  checksum_finish (checksum_add (checksum_add 0 pseudo) udp)

-- The part of `ims_ip_parse_udp_ipv4` behind the checks on the IP header.
unfoldable pub parse_udp : List ℕ → ℕ → ℕ → Outcome UdpPacket
parse_udp packet ihl total_len = do
  udp_len ← rd16 packet (ihl + 4)
  if ltb udp_len 8 || ltb total_len (ihl + udp_len) then reject else do
    src ← read_bytes packet 12 4
    dst ← read_bytes packet 16 4
    sport ← rd16 packet ihl
    dport ← rd16 packet (ihl + 2)
    bytes ← read_bytes packet (ihl + 8) (udp_len - 8)
    ok (record { src_ip = src; dst_ip = dst; src_port = sport; dst_port = dport; payload = bytes })

unfoldable pub parse_udp_ipv4 : List ℕ → Outcome UdpPacket
parse_udp_ipv4 packet = if ltb (length packet) 28 then reject else do
  version_ihl ← read packet 0
  if not (version_ihl / 2 ^ 4 == 4) then reject else do
    let ihl : ℕ = version_ihl % 2 ^ 4 * 4
    if ltb ihl 20 || ltb (length packet) ihl then reject else do
      protocol ← read packet 9
      if not (protocol == 17) then reject else do
        total_len ← rd16 packet 2
        if ltb total_len (ihl + 8) || ltb (length packet) total_len
            then reject
            else parse_udp packet ihl total_len

-- The writes of `ims_ip_build_udp_ipv4` to the IP header.
unfoldable pub write_ip : List ℕ → ℕ → List ℕ → List ℕ → Outcome (List ℕ)
write_ip out total_len src_ip dst_ip = do
  out ← blit out 0 (replicate total_len 0)
  out ← blit out 0 (69 ∷ 0 ∷ [])
  out ← wr16 out 2 (total_len % 2 ^ 16)
  out ← wr16 out 4 0
  out ← wr16 out 6 (2 ^ 14)
  out ← blit out 8 (64 ∷ 17 ∷ [])
  src ← read_bytes src_ip 0 4
  out ← blit out 12 src
  dst ← read_bytes dst_ip 0 4
  out ← blit out 16 dst
  hdr ← read_bytes out 0 20
  csum ← ipv4_header_checksum hdr
  wr16 out 10 csum

-- Its writes to the UDP header and the payload.
unfoldable pub write_udp : List ℕ → ℕ → List ℕ → List ℕ → ℕ → ℕ → List ℕ → Outcome (List ℕ)
write_udp out udp_len src_ip dst_ip src_port dst_port payload = do
  out ← wr16 out 20 src_port
  out ← wr16 out 22 dst_port
  out ← wr16 out 24 (udp_len % 2 ^ 16)
  out ← if ltb 0 (length payload) then blit out 28 payload else ok out
  udp ← read_bytes out 20 udp_len
  csum ← udp_checksum_ipv4 src_ip dst_ip udp
  wr16 out 26 (if csum == 0 then 2 ^ 16 - 1 else csum)

-- The buffer and the length of the packet.
unfoldable pub build_udp_ipv4 : List ℕ → List ℕ → List ℕ → ℕ → ℕ → List ℕ → Outcome (List ℕ × ℕ)
build_udp_ipv4 out src_ip dst_ip src_port dst_port payload =
    let udp_len : ℕ = 8 + length payload in
    let total_len : ℕ = 20 + udp_len in
    if ltb (2 ^ 16 - 1 - 28) (length payload) || ltb (length out) total_len then reject else do
      out ← write_ip out total_len src_ip dst_ip
      out ← write_udp out udp_len src_ip dst_ip src_port dst_port payload
      ok (out, total_len)
