-- ===== src/ImsIp/Safety.antt =====
-- `ims_ip_parse_udp_ipv4` on any packet.
use virtuallte.Common.{
  ℕ, ◌+◌, ◌-◌, ◌*◌, ◌%◌, ◌^◌, ◌≤◌, ◌≡◌, List, not, ◌==◌, ◌/◌, length, arith, Outcome, Safe,
  Safe-read, Safe-read_bytes, Safe-bind, Safe-if, ltb, ◌||◌, ◌>>=◌,
}
use virtuallte.ImsIp.{UdpPacket, rd16, parse_udp, parse_udp_ipv4}

-- Two addresses of four bytes, and a payload that has room behind two headers in the packet.
pub record Inside (packet : List ℕ) (u : UdpPacket) : Type 0 where
  pub src_ip_size : length u.src_ip ≡ 4
  pub dst_ip_size : length u.dst_ip ≡ 4
  pub payload_size : 28 + length u.payload ≤ length packet

rd16-Safe :
    (packet : List ℕ) (P : UdpPacket → Type 0) (off : ℕ) (f : ℕ → Outcome UdpPacket)
    → off + 2 ≤ length packet
    → ((v : ℕ) → Safe P (f v))
    → Safe P (rd16 packet off >>= f)
unfolding rd16
rd16-Safe packet P off f h k =
    Safe-bind (λ v. Unit) P (rd16 packet off) f
      (Safe-read (λ v. Unit) packet off _ (omega arith)
        (λ a. Safe-read (λ v. Unit) packet (off + 1) _ (omega arith) (λ b. tt)))
      (λ v u. k v)

module _ (packet : List ℕ) where
  parse_udp-Safe :
      (ihl total_len : ℕ)
      → 20 ≤ ihl
      → ihl + 8 ≤ total_len
      → total_len ≤ length packet
      → Safe (Inside packet) (parse_udp packet ihl total_len)
  unfolding parse_udp
  parse_udp-Safe ihl total_len h20 h8 h =
      rd16-Safe packet (Inside packet) (ihl + 4) _ (omega arith) (λ udp_len.
        Safe-if (Inside packet) (ltb udp_len 8 || ltb total_len (ihl + udp_len)) _ _ (λ e. tt)
          (λ e.
            let long : 8 ≤ udp_len = ground arith in
            let inside : ihl + udp_len ≤ total_len = ground arith in
            Safe-read_bytes (Inside packet) packet 12 4 _ (omega arith) (λ src hs.
              Safe-read_bytes (Inside packet) packet 16 4 _ (omega arith) (λ dst hd.
                rd16-Safe packet (Inside packet) ihl _ (omega arith) (λ sport.
                  rd16-Safe packet (Inside packet) (ihl + 2) _ (omega arith) (λ dport.
                    Safe-read_bytes (Inside packet) packet (ihl + 8) (udp_len - 8) _ (omega arith)
                      (λ bytes hb. record {
                        src_ip_size = hs;
                        dst_ip_size = hd;
                        payload_size = omega arith;
                      })))))))

  -- No packet is read outside its bytes: it is refused, or it parses to two addresses of four bytes
  -- and a payload that lies inside the packet, behind the two headers.
  pub parse_udp_ipv4-Safe : Safe (Inside packet) (parse_udp_ipv4 packet)
  unfolding parse_udp_ipv4
  parse_udp_ipv4-Safe =
      Safe-if (Inside packet) (ltb (length packet) 28) _ _ (λ e. tt)
        (λ e.
          let h28 : 28 ≤ length packet = ground arith in
          Safe-read (Inside packet) packet 0 _ (omega arith) (λ version_ihl.
            Safe-if (Inside packet) (not (version_ihl / 2 ^ 4 == 4)) _ _ (λ e. tt)
              (λ e.
                Safe-if (Inside packet)
                  (ltb (version_ihl % 2 ^ 4 * 4) 20
                    || ltb (length packet) (version_ihl % 2 ^ 4 * 4))
                  _ _ (λ e. tt)
                  (λ e1.
                    let h20 : 20 ≤ version_ihl % 2 ^ 4 * 4 = ground arith in
                    Safe-read (Inside packet) packet 9 _ (omega arith) (λ protocol.
                      Safe-if (Inside packet) (not (protocol == 17)) _ _ (λ e. tt)
                        (λ e. rd16-Safe packet (Inside packet) 2 _ (omega arith) (λ total_len.
                          Safe-if (Inside packet)
                            (ltb total_len (version_ihl % 2 ^ 4 * 4 + 8)
                              || ltb (length packet) total_len)
                            _ _ (λ e. tt)
                            (λ e2.
                              parse_udp-Safe (version_ihl % 2 ^ 4 * 4) total_len h20 (ground arith)
                                (ground arith)))))))))
