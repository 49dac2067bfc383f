-- ===== src/NasDecode/Dispatch/Authentication.antt =====
-- The Authentication Request of TS 24.501, as ue_nas_decode.c takes it apart.
use virtuallte.Common.{
  ℕ, zero, suc, ◌+◌, ◌%◌, ◌≤◌, ◌≡◌, ◌∙◌, refl, ap, sym, true, ◌&&◌, List, [], ◌∷◌, ◌++◌, length,
  drop, replicate, ltb, leb, ok, read, read_bytes, blit, arith, bind_ok, length-append,
  read_bytes-append, read_bytes_end, le→leb, le→not-ltb, append-nil, append_assoc, read-append,
  if_true, if_false, blit-append,
}
use virtuallte.NasDecode.Event.{EventType, NasEvent, empty_event}
use virtuallte.NasDecode.Mobility.{
  decode_authentication_request, copy_abba, copy_rand, copy_autn, decode_mm_body, decode_mm_message,
}
use virtuallte.NasDecode.Dispatch.{decode_event}

-- The message of the network: key set identifier, ABBA, RAND and AUTN.
abbrev pub authentication_request : ℕ → List ℕ → List ℕ → List ℕ → List ℕ
authentication_request ksi abba rand autn =
    (0x7E ∷ (0x00 ∷ (0x56 ∷ (ksi ∷ (length abba ∷ abba)))))
    ++ ((0x21 ∷ rand) ++ (0x20 ∷ (16 ∷ autn)))

-- An array of 16 bytes that is overwritten in full.
blit_all : (old new : List ℕ) → length old ≡ length new → blit old 0 new ≡ ok new
blit_all old new h =
    blit-append [] old new 0 refl (omega arith)
    ∙ ap ok (ap (λ t. new ++ t) (drop_nothing old (length new) (omega arith)) ∙ append-nil new)
  where
    drop_nothing : (xs : List ℕ) (n : ℕ) → length xs ≤ n → drop n xs ≡ []
    drop_nothing [] zero k = refl
    drop_nothing [] (suc n) k = refl
    drop_nothing (x ∷ xs) zero k = absurd (omega arith)
    drop_nothing (x ∷ xs) (suc n) k = drop_nothing xs n (omega arith)

module _ (ksi : ℕ) (abba rand autn : List ℕ) where
  abbrev pdu : List ℕ
  pdu = authentication_request ksi abba rand autn

  abbrev front : List ℕ
  front = 0x7E ∷ (0x00 ∷ (0x56 ∷ (ksi ∷ (length abba ∷ abba))))

  -- The event that holds what the message holds.
  abbrev pub authentication_event : NasEvent
  authentication_event = record empty_event {
    event_type = EventType.authentication_request;
    raw_msg_type = 0x56;
    raw_epd = 0x7E;
    ngksi = ksi % 8;
    has_ngksi = true;
    auth_abba = abba ++ drop (length abba) (replicate 16 0);
    auth_abba_len = length abba;
    has_auth_abba = true;
    auth_rand = rand;
    has_auth_rand = true;
    auth_autn = autn;
    has_auth_autn = true;
  }

  length-pdu : length pdu ≡ 5 + length abba + (1 + length rand) + (2 + length autn)
  length-pdu = omega (
    arith,
    length-append {0} front ((0x21 ∷ rand) ++ (0x20 ∷ (16 ∷ autn))),
    length-append {0} rand (0x20 ∷ (16 ∷ autn)),
  )

  module _ (abba_some : 1 ≤ length abba) (abba_fits : length abba ≤ 16)
      (rand_size : length rand ≡ 16) (autn_size : length autn ≡ 16) where
    copy_abba_lem :
        (e : NasEvent)
        → length e.auth_abba ≡ 16
        → copy_abba pdu 4 (length abba) e
          ≡ ok record e {
            auth_abba = abba ++ drop (length abba) e.auth_abba;
            auth_abba_len = length abba;
            has_auth_abba = true;
          }
    unfolding copy_abba
    copy_abba_lem e h =
        if_true (leb (5 + length abba) (length pdu) && leb (length abba) (length e.auth_abba)) _ _
          (ground (arith, length-pdu))
          (bind_ok _ _
            (read_bytes-append (0x7E ∷ (0x00 ∷ (0x56 ∷ (ksi ∷ (length abba ∷ []))))) abba
              ((0x21 ∷ rand) ++ (0x20 ∷ (16 ∷ autn))) 5 (length abba) refl refl)
            (bind_ok _ _ (blit-append [] e.auth_abba abba 0 refl (omega arith)) refl))

    copy_rand_lem :
        (e : NasEvent)
        → length e.auth_rand ≡ 16
        → copy_rand pdu (5 + length abba) e
          ≡ ok (5 + length abba + 17, record e { auth_rand = rand; has_auth_rand = true })
    unfolding copy_rand
    copy_rand_lem e h =
        if_true (leb (5 + length abba + 17) (length pdu)) _ _
          (le→leb _ _ (omega (arith, length-pdu)))
          (bind_ok _ _
            (read-append front (rand ++ (0x20 ∷ (16 ∷ autn))) 0x21 (5 + length abba) (omega arith))
            (bind_ok _ _ rand_at (bind_ok _ _ (blit_all e.auth_rand rand (omega arith)) refl)))
      where
        rand_at : read_bytes pdu (5 + length abba + 1) 16 ≡ ok rand
        rand_at =
            ap (λ p. read_bytes p (5 + length abba + 1) 16)
              (sym (append_assoc front (0x21 ∷ []) (rand ++ (0x20 ∷ (16 ∷ autn)))))
            ∙ read_bytes-append (front ++ (0x21 ∷ [])) rand (0x20 ∷ (16 ∷ autn))
                (5 + length abba + 1) 16 (omega (arith, length-append {0} front (0x21 ∷ [])))
                (omega arith)

    before_autn : pdu ≡ (front ++ (0x21 ∷ rand)) ++ (0x20 ∷ (16 ∷ autn))
    before_autn = sym (append_assoc front (0x21 ∷ rand) (0x20 ∷ (16 ∷ autn)))

    length-before_autn : length (front ++ (0x21 ∷ rand)) ≡ 5 + length abba + 17
    length-before_autn = omega (arith, length-append {0} front (0x21 ∷ rand))

    copy_autn_lem :
        (e : NasEvent)
        → length e.auth_autn ≡ 16
        → copy_autn pdu (5 + length abba + 17) e
          ≡ ok record e { auth_autn = autn; has_auth_autn = true }
    unfolding copy_autn
    copy_autn_lem e h =
        let n : ℕ = 5 + length abba + 17 in
        let head : List ℕ = front ++ (0x21 ∷ rand) in
        if_true (leb (n + 18) (length pdu)) _ _ (le→leb _ _ (omega (arith, length-pdu))) (
          bind_ok _ _
            (ap (λ p. read p n) before_autn
              ∙ read-append head (16 ∷ autn) 0x20 n (sym length-before_autn))
            (bind_ok _ _
              (ap (λ p. read p (n + 1))
                  (before_autn ∙ sym (append_assoc head (0x20 ∷ []) (16 ∷ autn)))
                ∙ read-append (head ++ (0x20 ∷ [])) autn 16 (n + 1)
                    (omega (arith, length-before_autn, length-append {0} head (0x20 ∷ []))))
              (bind_ok _ _
                (ap (λ p. read_bytes p (n + 2) 16)
                    (before_autn ∙ sym (append_assoc head (0x20 ∷ (16 ∷ [])) autn))
                  ∙ read_bytes_end (head ++ (0x20 ∷ (16 ∷ []))) autn (n + 2) 16
                      (omega (arith, length-before_autn, length-append {0} head (0x20 ∷ (16 ∷ []))))
                      (omega arith))
                (bind_ok _ _ (blit_all e.auth_autn autn (omega arith)) refl))))

    -- A well-formed Authentication Request, with an ABBA of 1 to 16 bytes, is decoded in full: the
    -- event has its key set identifier, ABBA, RAND and AUTN, and nothing else is set.
    pub decode-authentication_request : decode_event pdu ≡ ok authentication_event
    unfolding decode_event decode_mm_message decode_mm_body decode_authentication_request
    decode-authentication_request =
        let start : NasEvent = record empty_event {
          event_type = EventType.authentication_request;
          raw_msg_type = 0x56;
          raw_epd = 0x7E;
          ngksi = ksi % 8;
          has_ngksi = true;
        } in
        let with_abba : NasEvent = record start {
          auth_abba = abba ++ drop (length abba) (replicate 16 0);
          auth_abba_len = length abba;
          has_auth_abba = true;
        } in
        let behind : 4 + (1 + length abba) ≡ 5 + length abba = omega arith in
        let with_rand : NasEvent = record with_abba { auth_rand = rand; has_auth_rand = true } in
        if_false (ltb (length pdu) 2) _ _ (le→not-ltb _ _ (omega (arith, length-pdu))) (
          bind_ok _ _
            (if_false (ltb (length pdu) 3) _ _ (le→not-ltb _ _ (omega (arith, length-pdu))) (
              if_true (leb 41 (length pdu)) _ _ (le→leb _ _ (omega (arith, length-pdu))) (
                bind_ok _ _ (copy_abba_lem start refl) (
                  bind_ok _ _
                    (ap (λ n. copy_rand pdu n with_abba) behind ∙ copy_rand_lem with_abba refl)
                    (copy_autn_lem with_rand refl)))))
            refl)
