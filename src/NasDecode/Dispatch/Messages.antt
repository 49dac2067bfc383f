-- ===== src/NasDecode/Dispatch/Messages.antt =====
-- Which messages ue_nas_decode.c takes, and what it makes of two that are well formed.
use virtuallte.Common.{ℕ, ◌≡◌, ◌≢◌, ◌⊎◌, true, false, List, [], ◌∷◌, ◌==◌, ok, read, arith, refl}
use virtuallte.NasDecode.Event.{EventType, NasEvent, empty_event}
use virtuallte.NasDecode.Mobility.{
  gprs_timer3_seconds, scan_t3512, parse_t3512, skip_half_octets, copy_guti,
  decode_registration_accept, decode_mm_body, decode_mm_message,
}
use virtuallte.NasDecode.Dispatch.{decode_event}

-- The decoder accepts nothing but plain messages: the 5GMM discriminator with no security header,
-- or the 5GSM discriminator.
pub accepted_is_plain :
    (pdu : List ℕ) (e : NasEvent)
    → decode_event pdu ≡ ok e
    → ((read pdu 0 ≡ ok 0x7E) × (read pdu 1 ≡ ok 0x00)) ⊎ (read pdu 0 ≡ ok 0x2E)
unfolding decode_event
accepted_is_plain [] e h = ground arith
accepted_is_plain (epd ∷ []) e h = ground arith
accepted_is_plain (epd ∷ (sht ∷ rest)) e h = ground arith

-- A Registration Accept with nothing behind its 5G-GUTI.
abbrev pub accept_with_guti : ℕ → ℕ → ℕ → ℕ → ℕ → ℕ → ℕ → ℕ → ℕ → ℕ → List ℕ
accept_with_guti p1 p2 p3 region s1 s2 t1 t2 t3 t4 =
    0x7E
    ∷ (0x00
        ∷ (0x42
            ∷ (0x01
                ∷ (0x01
                    ∷ (0x77
                        ∷ (0x00
                            ∷ (0x0B
                                ∷ (0xF2
                                    ∷ (p1
                                        ∷ (p2
                                            ∷ (p3
                                                ∷ (region
                                                    ∷ (s1
                                                        ∷ (s2
                                                            ∷ (t1
                                                            ∷ (t2 ∷ (t3 ∷ (t4 ∷ []))))))))))))))))))

-- A Registration Accept that holds no T3512, but a 5G-GUTI whose temporary identity starts with the
-- octets 5E 01 while no octet before them is 5E, is decoded to an event that has a T3512: the third
-- octet of that identity, as a timer value.
pub t3512_out_of_guti :
    (p1 p2 p3 region s1 s2 v t4 : ℕ)
    → p1 ≢ 0x5E
    → p2 ≢ 0x5E
    → p3 ≢ 0x5E
    → region ≢ 0x5E
    → s1 ≢ 0x5E
    → s2 ≢ 0x5E
    → decode_event (accept_with_guti p1 p2 p3 region s1 s2 0x5E 0x01 v t4)
      ≡ ok record empty_event {
        event_type = EventType.registration_accept;
        has_guti = true;
        guti_len = 11;
        guti =
            0xF2
            ∷ (p1
                ∷ (p2
                    ∷ (p3
                        ∷ (region
                            ∷ (s1
                                ∷ (s2
                                    ∷ (0x5E
                                        ∷ (0x01
                                            ∷ (v ∷ (t4 ∷ (0 ∷ (0 ∷ (0 ∷ (0 ∷ (0 ∷ [])))))))))))))));
        has_t3512 = true;
        t3512_seconds = gprs_timer3_seconds v;
        raw_msg_type = 0x42;
        raw_epd = 0x7E;
      }
unfolding decode_event decode_mm_message decode_mm_body decode_registration_accept skip_half_octets
    copy_guti parse_t3512 scan_t3512
t3512_out_of_guti p1 p2 p3 region s1 s2 v t4 h1 h2 h3 h4 h5 h6 =
    let n1 : (p1 == 0x5E) ≡ false = ground arith in
    let n2 : (p2 == 0x5E) ≡ false = ground arith in
    let n3 : (p3 == 0x5E) ≡ false = ground arith in
    let n4 : (region == 0x5E) ≡ false = ground arith in
    let n5 : (s1 == 0x5E) ≡ false = ground arith in
    let n6 : (s2 == 0x5E) ≡ false = ground arith in rw (n1, n2, n3, n4, n5, n6) refl
