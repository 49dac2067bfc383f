-- ===== src/NasDecode/Session/Safety.antt =====
-- No 5GSM message makes the decoder of ue_nas_decode.c read or write outside its arrays.
use virtuallte.Common.{
  ℕ, zero, suc, ◌+◌, ◌≤◌, ◌<◌, ◌≡◌, not, ◌||◌, ◌&&◌, List, length, ltb, leb, ◌==◌, if◌then◌else◌,
  Option, none, some, read_ok, Safe, Safe-bind, Safe-if, Safe-read, Safe-read_bytes, Safe-blit,
  arith, leb→le,
}
use virtuallte.NasDecode.Event.{EventType, NasEvent, Safe-read_be16, IsWellFormed}
use virtuallte.NasDecode.Session.{
  walk_items, epco_at, scan_epco, parse_epco_container_ipv4, skip_lv16, skip_lv8, copy_pdu_address,
  scan_pdu_address, set_dns, set_pcscf, find_pdu_address, decode_est_accept, decode_sm_cause,
  decode_sm_body, decode_sm_message,
}

-- An address that was found has four octets.
abbrev pub IsAddress : Option (List ℕ) → Type 0
IsAddress none = Unit
IsAddress (some value) = length value ≡ 4

module _ (pdu : List ℕ) where
  walk_items-Safe :
      (fuel wanted_id end p : ℕ)
      → 1 ≤ fuel
      → end < p + fuel
      → end ≤ length pdu
      → Safe IsAddress (walk_items fuel pdu wanted_id end p)
  unfolding walk_items
  walk_items-Safe zero wanted_id end p k h e = absurd (omega arith)
  walk_items-Safe (suc fuel) wanted_id end p k h e =
      Safe-if _ (leb (p + 3) end) _ _
        (λ more.
          let room : p + 3 ≤ end = leb→le _ _ more in
          Safe-read_be16 _ pdu p _ (omega arith) (λ id.
            Safe-read _ pdu (p + 2) _ (omega arith) (λ n.
              Safe-if _ (ltb end (p + 3 + n)) _ _ (λ _. tt)
                (λ fits.
                  let inside : p + 3 + n ≤ end = ground arith in
                  Safe-if _ (id == wanted_id && n == 4) _ _
                    (λ four.
                      let four : n ≡ 4 = ground arith in
                      Safe-read_bytes _ pdu (p + 3) 4 _ (omega arith) (λ value l. l))
                    (λ _.
                      walk_items-Safe fuel wanted_id end (p + (3 + n)) (omega arith) (omega arith)
                        e)))))
        (λ _. tt)

  epco_at-Safe : (wanted_id i : ℕ) → i + 4 < length pdu → Safe IsAddress (epco_at pdu wanted_id i)
  unfolding epco_at
  epco_at-Safe wanted_id i h = Safe-read_be16 _ pdu (i + 1) _ (omega arith) (λ n.
      Safe-if _ (ltb n 1 || ltb (length pdu) (i + 3 + n)) _ _ (λ _. tt)
        (λ fits.
          let inside : i + 3 + n ≤ length pdu = ground arith in
          Safe-read _ pdu (i + 3) _ (omega arith) (λ protocol.
            Safe-if _ (not (protocol == 0x80)) _ _ (λ _. tt)
              (λ _.
                walk_items-Safe (length pdu + 1) wanted_id (i + 3 + n) (i + 4) (omega arith)
                  (omega arith) inside))))

  scan_epco-Safe :
      (fuel wanted_id i : ℕ)
      → 1 ≤ fuel
      → length pdu < i + fuel
      → Safe IsAddress (scan_epco fuel pdu wanted_id i)
  unfolding scan_epco
  scan_epco-Safe zero wanted_id i k h = absurd (omega arith)
  scan_epco-Safe (suc fuel) wanted_id i k h =
      Safe-if _ (ltb (i + 4) (length pdu)) _ _
        (λ more.
          let room : i + 4 < length pdu = ground arith in
          let rest = scan_epco-Safe fuel wanted_id (i + 1) (omega arith) (omega arith) in
          Safe-read _ pdu i _ (omega arith) (λ b.
            Safe-if _ (not (b == 0x7B)) _ _ (λ _. rest)
              (λ _.
                Safe-bind IsAddress _ _ _ (epco_at-Safe wanted_id i room)
                  (λ found a. ground (arith, rest, a)))))
        (λ _. tt)

  copy_pdu_address-Safe :
      (pos : ℕ) (e : NasEvent)
      → pos + 2 < length pdu
      → IsWellFormed e
      → Safe IsWellFormed (copy_pdu_address pdu pos e)
  unfolding copy_pdu_address
  copy_pdu_address-Safe pos e k h = Safe-read _ pdu (pos + 1) _ (omega arith) (λ n.
      Safe-if _ (leb (pos + 2 + n) (length pdu) && leb 5 n) _ _
        (λ fits.
          let inside : pos + 7 ≤ length pdu = ground arith in
          Safe-read _ pdu (pos + 2) _ (omega arith) (λ kind.
            Safe-if _ (kind == 1 && leb 5 n) _ _
              (λ _. Safe-read_bytes _ pdu (pos + 3) 4 _ (omega arith) (λ value l.
                Safe-blit _ e.ipv4_addr 0 value _ (omega (arith, h.ipv4_size))
                  (λ addr m. ground (arith, h, l, m))))
              (λ _. ground (arith, h))))
        (λ _. h))

  scan_pdu_address-Safe :
      (fuel pos : ℕ) (e : NasEvent)
      → 1 ≤ fuel
      → length pdu < pos + fuel
      → IsWellFormed e
      → Safe IsWellFormed (scan_pdu_address fuel pdu pos e)
  unfolding scan_pdu_address
  scan_pdu_address-Safe zero pos e k h w = absurd (omega arith)
  scan_pdu_address-Safe (suc fuel) pos e k h w =
      Safe-if _ (ltb (pos + 2) (length pdu)) _ _
        (λ more.
          let room : pos + 2 < length pdu = ground arith in
          Safe-read _ pdu pos _ (omega arith) (λ iei.
            Safe-read _ pdu (pos + 1) _ (omega arith) (λ n.
              let next = if leb 0x80 iei then pos + 1 else pos + (2 + n) in
              let forward : pos < next = ground arith in
              Safe-if _ (iei == 0x29) _ _ (λ _. copy_pdu_address-Safe pos e room w)
                (λ _. scan_pdu_address-Safe fuel next e (omega arith) (omega arith) w))))
        (λ _. w)

  find_pdu_address-Safe :
      (e : NasEvent) → IsWellFormed e → Safe IsWellFormed (find_pdu_address pdu e)
  unfolding find_pdu_address skip_lv16 skip_lv8
  find_pdu_address-Safe e h =
      Safe-if _ (leb 5 (length pdu)) _ _
        (λ more.
          Safe-bind (λ _. Unit) _ _ _
            (Safe-if _ (leb (5 + 2) (length pdu)) _ _
              (λ room. Safe-read_be16 _ pdu 5 _ (leb→le _ _ room) (λ n. tt)) (λ _. tt))
            (λ pos _.
              Safe-bind (λ _. Unit) _ _ _
                (Safe-if _ (leb (pos + 1) (length pdu)) _ _
                  (λ room.
                    let room : pos + 1 ≤ length pdu = leb→le _ _ room in
                    Safe-read _ pdu pos _ (omega arith) (λ n. tt))
                  (λ _. tt))
                (λ pos _.
                  scan_pdu_address-Safe (length pdu + 1) pos e (omega arith) (omega arith) h)))
        (λ _. h)

  decode_est_accept-Safe :
      (e : NasEvent) → IsWellFormed e → Safe IsWellFormed (decode_est_accept pdu e)
  unfolding decode_est_accept parse_epco_container_ipv4
  decode_est_accept-Safe e h =
      Safe-bind IsWellFormed _ _ _
        (find_pdu_address-Safe (record e { event_type = EventType.pdu_session_est_accept })
          (ground (arith, h)))
        (λ event w.
          Safe-bind IsAddress _ _ _
            (scan_epco-Safe (length pdu + 1) 0x000D 4 (omega arith) (omega arith))
            (λ dns a.
              Safe-bind IsAddress _ _ _
                (scan_epco-Safe (length pdu + 1) 0x000C 4 (omega arith) (omega arith))
                (λ pcscf b. keep event dns pcscf w a b)))
    where
      keep :
          (ev : NasEvent) (dns pcscf : Option (List ℕ))
          → IsWellFormed ev
          → IsAddress dns
          → IsAddress pcscf
          → IsWellFormed (set_pcscf (set_dns ev dns) pcscf)
      keep ev none none w a b = w
      keep ev none (some y) w a b = ground (arith, w, b)
      keep ev (some x) none w a b = ground (arith, w, a)
      keep ev (some x) (some y) w a b = ground (arith, w, a, b)

-- A 5GSM message makes the decoder touch its buffers inside their bounds only, and the event that
-- it fills keeps its invariant.
pub decode_sm_message-Safe :
    (pdu : List ℕ) (e : NasEvent) → IsWellFormed e → Safe IsWellFormed (decode_sm_message pdu e)
unfolding decode_sm_message decode_sm_body decode_sm_cause
decode_sm_message-Safe pdu e h =
    Safe-if _ (ltb (length pdu) 4) _ _ (λ _. tt)
      (λ long.
        let room : 4 ≤ length pdu = ground arith in
        Safe-read _ pdu 0 _ (omega arith) (λ epd.
          Safe-if _ (not (epd == 0x2E)) _ _ (λ _. tt)
            (λ _. Safe-read _ pdu 1 _ (omega arith) (λ psi.
              Safe-read _ pdu 2 _ (omega arith) (λ pti. Safe-read _ pdu 3 _ (omega arith) (λ t.
                let event : NasEvent = record e {
                  psi = psi;
                  pti = pti;
                  raw_msg_type = t;
                  raw_epd = 0x2E;
                } in
                let w : IsWellFormed event = ground (arith, h) in
                ground (arith, w, read_ok pdu 4, decode_est_accept-Safe pdu event w)))))))
