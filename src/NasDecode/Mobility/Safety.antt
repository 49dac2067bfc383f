-- ===== src/NasDecode/Mobility/Safety.antt =====
-- No 5GMM message makes the decoder of ue_nas_decode.c read or write outside its arrays.
use virtuallte.Common.{
  ℕ, zero, suc, ◌+◌, ◌%◌, ◌≤◌, ◌<◌, true, not, ◌&&◌, List, length, ltb, leb, ◌==◌, if◌then◌else◌,
  Safe, Safe-bind, Safe-if, Safe-read, Safe-read_bytes, Safe-blit, arith, leb→le, ltb→lt, read_ok,
}
use virtuallte.NasDecode.Event.{EventType, NasEvent, Safe-read_be16, IsWellFormed}
use virtuallte.NasDecode.Mobility.{
  scan_t3512, parse_t3512, skip_half_octets, copy_guti, decode_registration_accept,
  decode_registration_reject, copy_abba, copy_rand, copy_autn, decode_authentication_request,
  scan_sec_info, decode_security_mode_command, decode_config_update, copy_container,
  read_session_id, decode_dl_nas_transport, decode_mm_body, decode_mm_message,
}

scan_t3512-Safe :
    (fuel : ℕ) (pdu : List ℕ) (i : ℕ)
    → 1 ≤ fuel
    → length pdu < i + fuel
    → Safe (λ _. Unit) (scan_t3512 fuel pdu i)
unfolding scan_t3512
scan_t3512-Safe zero pdu i k h = absurd (omega arith)
scan_t3512-Safe (suc fuel) pdu i k h = ground (
  arith,
  read_ok pdu i,
  read_ok pdu (i + 1),
  read_ok pdu (i + 2),
  scan_t3512-Safe fuel pdu (i + 1),
)

skip_half_octets-Safe :
    (fuel : ℕ) (pdu : List ℕ) (pos : ℕ)
    → 1 ≤ fuel
    → length pdu < pos + fuel
    → Safe (λ _. Unit) (skip_half_octets fuel pdu pos)
unfolding skip_half_octets
skip_half_octets-Safe zero pdu pos k h = absurd (omega arith)
skip_half_octets-Safe (suc fuel) pdu pos k h =
    ground (arith, read_ok pdu pos, skip_half_octets-Safe fuel pdu (pos + 1))

scan_sec_info-Safe :
    (fuel : ℕ) (pdu : List ℕ) (pos : ℕ) (e : NasEvent)
    → 1 ≤ fuel
    → length pdu < pos + fuel
    → IsWellFormed e
    → Safe IsWellFormed (scan_sec_info fuel pdu pos e)
unfolding scan_sec_info
scan_sec_info-Safe zero pdu pos e k h w = absurd (omega arith)
scan_sec_info-Safe (suc fuel) pdu pos e k h w = ground (
  arith,
  read_ok pdu pos,
  read_ok pdu (pos + 1),
  read_ok pdu (pos + 2),
  scan_sec_info-Safe fuel pdu (pos + 1) e,
  w,
)

module _ (pdu : List ℕ) where
  copy_guti-Safe :
      (pos : ℕ) (e : NasEvent) → IsWellFormed e → Safe IsWellFormed (copy_guti pdu pos e)
  unfolding copy_guti
  copy_guti-Safe pos e h =
      Safe-if _ (leb (pos + 3) (length pdu)) _ _
        (λ more.
          let room : pos + 3 ≤ length pdu = leb→le _ _ more in
          Safe-read _ pdu pos _ (omega arith) (λ iei.
            Safe-if _ (not (iei == 0x77)) _ _ (λ _. h)
              (λ _. Safe-read_be16 _ pdu (pos + 1) _ (omega arith) (λ glen.
                Safe-if _
                  (ltb 0 glen && leb glen (length e.guti) && leb (pos + 3 + glen) (length pdu)) _ _
                  (λ fits.
                    let inside : pos + 3 + glen ≤ length pdu = ground arith in
                    let small : glen ≤ length e.guti = ground arith in
                    let some_byte : 0 < glen = ground arith in
                    Safe-read _ pdu (pos + 3) _ (omega arith) (λ kind.
                      Safe-if _ (not (kind % 8 == 0x02)) _ _ (λ _. h)
                        (λ _. Safe-read_bytes _ _ _ _ _ inside (λ value n.
                          Safe-blit _ e.guti 0 value _ (omega arith)
                            (λ guti m. ground (arith, h, n, m))))))
                  (λ _. h)))))
        (λ _. h)

  copy_abba-Safe :
      (pos n : ℕ) (e : NasEvent) → IsWellFormed e → Safe IsWellFormed (copy_abba pdu pos n e)
  unfolding copy_abba
  copy_abba-Safe pos n e h =
      Safe-if _ (leb (pos + 1 + n) (length pdu) && leb n (length e.auth_abba)) _ _
        (λ fits.
          let inside : pos + 1 + n ≤ length pdu = ground arith in
          let small : n ≤ length e.auth_abba = ground arith in
          Safe-read_bytes _ _ _ _ _ inside (λ value l.
            Safe-blit _ e.auth_abba 0 value _ (omega arith) (λ abba m. ground (arith, h, l, m))))
        (λ _. h)

  copy_rand-Safe :
      (pos : ℕ) (e : NasEvent) → IsWellFormed e → Safe (λ r. IsWellFormed r.1) (copy_rand pdu pos e)
  unfolding copy_rand
  copy_rand-Safe pos e h =
      Safe-if _ (leb (pos + 17) (length pdu)) _ _
        (λ more.
          let room : pos + 17 ≤ length pdu = leb→le _ _ more in
          Safe-read _ pdu pos _ (omega arith) (λ iei.
            Safe-if _ (not (iei == 0x21)) _ _ (λ _. h)
              (λ _. Safe-read_bytes _ pdu (pos + 1) 16 _ (omega arith) (λ value l.
                Safe-blit _ e.auth_rand 0 value _ (omega (arith, h.rand_size))
                  (λ rand m. ground (arith, h, l, m))))))
        (λ _. h)

  copy_autn-Safe :
      (pos : ℕ) (e : NasEvent) → IsWellFormed e → Safe IsWellFormed (copy_autn pdu pos e)
  unfolding copy_autn
  copy_autn-Safe pos e h =
      Safe-if _ (leb (pos + 18) (length pdu)) _ _
        (λ more.
          let room : pos + 18 ≤ length pdu = leb→le _ _ more in
          Safe-read _ pdu pos _ (omega arith) (λ iei.
            Safe-read _ pdu (pos + 1) _ (omega arith) (λ len.
              Safe-if _ (not (iei == 0x20 && len == 16)) _ _ (λ _. h)
                (λ _. Safe-read_bytes _ pdu (pos + 2) 16 _ (omega arith) (λ value l.
                  Safe-blit _ e.auth_autn 0 value _ (omega (arith, h.autn_size))
                    (λ autn m. ground (arith, h, l, m)))))))
        (λ _. h)

  decode_registration_accept-Safe :
      (e : NasEvent) → IsWellFormed e → Safe IsWellFormed (decode_registration_accept pdu e)
  unfolding decode_registration_accept parse_t3512
  decode_registration_accept-Safe e h =
      Safe-if _ (leb 5 (length pdu)) _ _
        (λ more.
          let room : 5 ≤ length pdu = leb→le _ _ more in
          Safe-read _ pdu 3 _ (omega arith) (λ n.
            Safe-bind (λ _. Unit) _ _ _
              (skip_half_octets-Safe (length pdu + 1) pdu (4 + n) (omega arith) (omega arith))
              (λ pos _.
                Safe-bind IsWellFormed _ _ _
                  (copy_guti-Safe pos (record e { event_type = EventType.registration_accept })
                    (ground (arith, h)))
                  (λ event w.
                    Safe-bind (λ _. Unit) _ _ _
                      (scan_t3512-Safe (length pdu + 1) pdu 5 (omega arith) (omega arith))
                      (λ timer _. ground (arith, w))))))
        (λ _. ground (arith, h))

  decode_authentication_request-Safe :
      (e : NasEvent) → IsWellFormed e → Safe IsWellFormed (decode_authentication_request pdu e)
  unfolding decode_authentication_request
  decode_authentication_request-Safe e h =
      Safe-if _ (leb (3 + 1 + 2 + 17 + 18) (length pdu)) _ _
        (λ more.
          let room : 41 ≤ length pdu = leb→le _ _ more in
          Safe-read _ pdu 3 _ (omega arith) (λ ksi.
            let event : NasEvent = record e {
              event_type = EventType.authentication_request;
              ngksi = ksi % 8;
              has_ngksi = true;
            } in
            let w : IsWellFormed event = ground (arith, h) in
            Safe-read _ pdu 4 _ (omega arith) (λ n.
              Safe-bind IsWellFormed _ _ _ (copy_abba-Safe 4 n event w) (λ event w.
                Safe-bind (λ r. IsWellFormed r.1) _ _ _ (copy_rand-Safe (4 + (1 + n)) event w)
                  (λ r w. copy_autn-Safe r.0 r.1 w)))))
        (λ _. ground (arith, h))

  decode_security_mode_command-Safe :
      (e : NasEvent) → IsWellFormed e → Safe IsWellFormed (decode_security_mode_command pdu e)
  unfolding decode_security_mode_command
  decode_security_mode_command-Safe e h =
      Safe-if _ (leb 5 (length pdu)) _ _
        (λ more.
          let room : 5 ≤ length pdu = leb→le _ _ more in
          Safe-read _ pdu 3 _ (omega arith) (λ algs. Safe-read _ pdu 4 _ (omega arith) (λ ksi.
            scan_sec_info-Safe (length pdu + 1) pdu 5 _ (omega arith) (omega arith)
              (ground (arith, h)))))
        (λ _. ground (arith, h))

  copy_container-Safe :
      (e : NasEvent) → 6 ≤ length pdu → IsWellFormed e → Safe IsWellFormed (copy_container pdu e)
  unfolding copy_container
  copy_container-Safe e k h = Safe-read _ pdu 3 _ (omega arith) (λ kind.
      Safe-if _ (not (kind % 16 == 0x01)) _ _ (λ _. h)
        (λ _. Safe-read_be16 _ pdu 4 _ (omega arith) (λ n.
          Safe-if _ (ltb 0 n && leb (n + 6) (length pdu)) _ _
            (λ fits.
              let inside : 6 + n ≤ length pdu = ground arith in
              let some_byte : 0 < n = ground arith in
              Safe-read_bytes _ pdu 6 n _ inside (λ inner l. ground (arith, h, l)))
            (λ _. h))))

  read_session_id-Safe : (e : NasEvent) → IsWellFormed e → Safe IsWellFormed (read_session_id pdu e)
  unfolding read_session_id
  read_session_id-Safe e h =
      let pos = if e.has_inner_sm then 6 + length e.inner_sm else 6 in
      Safe-if _ (ltb (pos + 1) (length pdu)) _ _
        (λ more.
          let room : pos + 1 < length pdu = ltb→lt _ _ more in
          Safe-read _ pdu pos _ (omega arith) (λ iei.
            Safe-if _ (not (iei == 0x12)) _ _ (λ _. h)
              (λ _. Safe-read _ pdu (pos + 1) _ (omega arith) (λ id. ground (arith, h)))))
        (λ _. h)

  decode_dl_nas_transport-Safe :
      (e : NasEvent) → IsWellFormed e → Safe IsWellFormed (decode_dl_nas_transport pdu e)
  unfolding decode_dl_nas_transport
  decode_dl_nas_transport-Safe e h =
      Safe-if _ (leb 6 (length pdu)) _ _
        (λ more.
          Safe-bind IsWellFormed _ _ _
            (copy_container-Safe (record e { event_type = EventType.dl_nas_transport })
              (leb→le _ _ more) (ground (arith, h)))
            (λ event w. read_session_id-Safe event w))
        (λ _. ground (arith, h))

  decode_mm_body-Safe :
      (t : ℕ) (e : NasEvent)
      → 3 ≤ length pdu
      → IsWellFormed e
      → Safe IsWellFormed (decode_mm_body t pdu e)
  unfolding decode_mm_body decode_registration_reject decode_config_update
  decode_mm_body-Safe t e k h = ground (
    arith,
    h,
    decode_registration_accept-Safe e h,
    decode_authentication_request-Safe e h,
    decode_security_mode_command-Safe e h,
    decode_dl_nas_transport-Safe e h,
    read_ok pdu 3,
  )

-- A 5GMM message makes the decoder touch its buffers inside their bounds only, and the event that
-- it fills keeps its invariant.
pub decode_mm_message-Safe :
    (pdu : List ℕ) (e : NasEvent) → IsWellFormed e → Safe IsWellFormed (decode_mm_message pdu e)
unfolding decode_mm_message
decode_mm_message-Safe pdu e h =
    Safe-if _ (ltb (length pdu) 3) _ _ (λ _. tt)
      (λ long.
        let room : 3 ≤ length pdu = ground arith in
        Safe-read _ pdu 0 _ (omega arith) (λ epd.
          Safe-if _ (not (epd == 0x7E)) _ _ (λ _. tt)
            (λ _.
              Safe-read _ pdu 2 _ (omega arith)
                (λ t. decode_mm_body-Safe pdu t _ room (ground (arith, h))))))
