-- ===== src/NasEncode/Tests.antt =====
-- Messages of the UE as they leave it.
use virtuallte.Common.{
  ℕ, ◌+◌, ◌≤◌, ◌<◌, ◌≡◌, ◌⊎◌, refl, true, none, some, List, [], ◌∷◌, ◌++◌, length, drop, replicate,
  ok, reject, fault, arith,
}
use virtuallte.NasEncode.Cursor.{put}
use virtuallte.NasEncode.Suci.{
  encode_suci, write_suci, put_msin, bcd_pack, nibble, digit_val, suci_validate_bcd,
  bcd_validate_plmn, bcd_validate_strict, all_strict,
}
use virtuallte.NasEncode.Mobility.{
  mobile_identity, encode_registration_request, encode_plain, encode_deregistration_request,
  encode_auth_response, encode_auth_failure, encode_security_mode_complete,
}
use virtuallte.NasEncode.Session.{encode_pdu_session_est_request}
use virtuallte.NasEncode.Registration.{registration_request, encode_registration_request_lem}
use virtuallte.NasEncode.Digits.{ascii}
use virtuallte.NasEncode.Subscriber.{Subscriber, AllDigits, mcc_digits, mnc_digits, imsi_digits}
use virtuallte.NasEncode.Identity.{suci_digits, suci_digits-encode_suci, encode_suci_odd}
use virtuallte.NasEncode.Establishment.{
  est_request, encode_pdu_session_est_request_lem, encode_pdu_session_est_request_overrun,
}
use virtuallte.NasEncode.Messages.{Fits, mm_messages-Fits}

-- IMSI 208 93 0000000003
abbrev home : Subscriber
home = record { m1 = 2; m2 = 0; m3 = 8; n1 = 9; n2 = 3; n3 = none; msin = 0 ∷ 0 ∷ 0 ∷ 3 ∷ [] }

-- IMSI 310 410 003
abbrev abroad : Subscriber
abroad = record { m1 = 3; m2 = 1; m3 = 0; n1 = 4; n2 = 1; n3 = some 0; msin = 0 ∷ 0 ∷ 3 ∷ [] }

home-AllDigits : AllDigits home
home-AllDigits = record {
  m1_digit = omega arith;
  m2_digit = omega arith;
  m3_digit = omega arith;
  n1_digit = omega arith;
  n2_digit = omega arith;
  n3_digit = tt;
  msin_digits = (omega arith, (omega arith, (omega arith, (omega arith, tt))));
}

abroad-AllDigits : AllDigits abroad
abroad-AllDigits = record {
  m1_digit = omega arith;
  m2_digit = omega arith;
  m3_digit = omega arith;
  n1_digit = omega arith;
  n2_digit = omega arith;
  n3_digit = (omega arith, tt);
  msin_digits = (omega arith, (omega arith, (omega arith, tt)));
}

abbrev buffer : List ℕ
buffer = replicate 40 7

encode_run :
    encode_suci
      (replicate 12 7)
      (ascii (imsi_digits home))
      (ascii (mcc_digits home))
      (ascii (mnc_digits home))
    ≡ ok (1 ∷ 0x02 ∷ 0xF8 ∷ 0x39 ∷ 0 ∷ 0 ∷ 0 ∷ 0 ∷ 0 ∷ 0x30 ∷ 7 ∷ 7 ∷ [], 10)
unfolding encode_suci write_suci put put_msin bcd_pack nibble digit_val suci_validate_bcd
    bcd_validate_plmn bcd_validate_strict all_strict
encode_run = refl

suci_digits-encode_suci_example :
    (suci : List ℕ) × (encode_suci buffer
        (ascii (imsi_digits home))
        (ascii (mcc_digits home))
        (ascii (mnc_digits home))
      ≡ ok (suci ++ drop (length suci) buffer, length suci))
    × (suci_digits suci ≡ imsi_digits home)
suci_digits-encode_suci_example =
    suci_digits-encode_suci home buffer home-AllDigits refl (omega arith)

encode_suci_odd_example :
    encode_suci buffer
      (ascii (imsi_digits abroad))
      (ascii (mcc_digits abroad))
      (ascii (mnc_digits abroad))
    ≡ reject
encode_suci_odd_example = encode_suci_odd abroad buffer abroad-AllDigits refl (omega arith)

abbrev guti : List ℕ
guti = 0xF2 ∷ 0x02 ∷ 0xF8 ∷ 0x39 ∷ []

guti_lem : mobile_identity [] [] [] guti ≡ ok guti
unfolding mobile_identity
guti_lem = refl

encode_registration_request_lem_example :
    (request : List ℕ) × (request ≡ registration_request guti 1 1 7 true)
    × (((20 + 4 ≤ length buffer)
          × (encode_registration_request buffer [] [] [] 1 9 guti 8 true
              ≡ ok (request ++ drop (length request) buffer, length request)))
        ⊎ ((length buffer < 20 + 4)
            × (encode_registration_request buffer [] [] [] 1 9 guti 8 true ≡ reject)))
encode_registration_request_lem_example =
    encode_registration_request_lem buffer [] [] [] 1 9 guti 8 true guti guti_lem

encode_pdu_session_est_request_lem_example :
    (octets : List ℕ) × (octets ≡ est_request 1 2 1 0 (0x69 ∷ 0x6D ∷ 0x73 ∷ []) 1)
    × (((length octets ≤ length buffer)
          × (encode_pdu_session_est_request buffer 1 2 1 0 (0x69 ∷ 0x6D ∷ 0x73 ∷ []) 1
              ≡ ok (octets ++ drop (length octets) buffer, length octets)))
        ⊎ ((length buffer < length octets)
            × (encode_pdu_session_est_request buffer 1 2 1 0 (0x69 ∷ 0x6D ∷ 0x73 ∷ []) 1 ≡ reject)))
encode_pdu_session_est_request_lem_example =
    encode_pdu_session_est_request_lem buffer 1 2 1 0 (0x69 ∷ 0x6D ∷ 0x73 ∷ []) 1 (omega arith)

encode_pdu_session_est_request_overrun_example :
    encode_pdu_session_est_request (replicate 35 7) 1 2 1 0 [] 1 ≡ fault
encode_pdu_session_est_request_overrun_example =
    encode_pdu_session_est_request_overrun (replicate 35 7) 1 2 1 0 [] 1 (omega arith) (omega arith)

mm_messages-Fits_example :
    Fits buffer (encode_plain 0x43 buffer)
    × Fits buffer (encode_deregistration_request buffer true guti 1)
    × Fits buffer (encode_auth_response buffer (replicate 16 1))
    × Fits buffer (encode_auth_failure buffer 21 (replicate 14 1))
    × Fits buffer (encode_security_mode_complete buffer (some guti))
mm_messages-Fits_example =
    mm_messages-Fits buffer 0x43 true guti 1 (replicate 16 1) 21 (replicate 14 1) (some guti)
