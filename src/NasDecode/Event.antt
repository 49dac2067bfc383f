-- ===== src/NasDecode/Event.antt =====
-- The result of the decoder of ue_nas_decode.c, from ue_nas_decode.h, and its reads.
use virtuallte.Common.{
  ℕ, ◌+◌, ◌*◌, ◌^◌, ◌≤◌, ◌<◌, ◌≡◌, Bool, true, false, List, length, arith, [], replicate, Safe,
  read_ok, get_or, Outcome, ok, ◌>>=◌, read,
}

-- `enum ue_nas_event_type`
pub data EventType : Type 0 where
  unknown registration_accept registration_reject : EventType
  pdu_session_est_accept pdu_session_est_reject pdu_session_release_cmd : EventType
  authentication_request security_mode_command identity_request : EventType
  config_update_command dl_nas_transport : EventType

-- `struct ue_nas_event`; `inner_sm` are the bytes that `inner_sm_data` points at.
pub record NasEvent : Type 0 where
  pub event_type : EventType
  pub mm_cause : ℕ
  pub has_guti : Bool
  pub guti : List ℕ
  pub guti_len : ℕ
  pub has_t3512 : Bool
  pub t3512_seconds : ℕ
  pub psi : ℕ
  pub pti : ℕ
  pub sm_cause : ℕ
  pub has_pdu_address : Bool
  pub pdu_addr_type : ℕ
  pub ipv4_addr : List ℕ
  pub has_dns : Bool
  pub dns_ipv4 : List ℕ
  pub has_pcscf : Bool
  pub pcscf_ipv4 : List ℕ
  pub has_inner_sm : Bool
  pub inner_sm : List ℕ
  pub raw_msg_type : ℕ
  pub raw_epd : ℕ
  pub has_auth_rand : Bool
  pub has_auth_autn : Bool
  pub has_auth_abba : Bool
  pub auth_abba_len : ℕ
  pub auth_abba : List ℕ
  pub auth_rand : List ℕ
  pub auth_autn : List ℕ
  pub has_sec_algs : Bool
  pub sec_enc_alg : ℕ
  pub sec_int_alg : ℕ
  pub has_ngksi : Bool
  pub ngksi : ℕ
  pub has_additional_5g_sec_info : Bool
  pub additional_5g_sec_info : ℕ
  pub config_update_ack_requested : Bool

-- The event that `memset` leaves.
abbrev pub empty_event : NasEvent
empty_event = record {
  event_type = EventType.unknown;
  mm_cause = 0;
  has_guti = false;
  guti = replicate 16 0;
  guti_len = 0;
  has_t3512 = false;
  t3512_seconds = 0;
  psi = 0;
  pti = 0;
  sm_cause = 0;
  has_pdu_address = false;
  pdu_addr_type = 0;
  ipv4_addr = replicate 4 0;
  has_dns = false;
  dns_ipv4 = replicate 4 0;
  has_pcscf = false;
  pcscf_ipv4 = replicate 4 0;
  has_inner_sm = false;
  inner_sm = [];
  raw_msg_type = 0;
  raw_epd = 0;
  has_auth_rand = false;
  has_auth_autn = false;
  has_auth_abba = false;
  auth_abba_len = 0;
  auth_abba = replicate 16 0;
  auth_rand = replicate 16 0;
  auth_autn = replicate 16 0;
  has_sec_algs = false;
  sec_enc_alg = 0;
  sec_int_alg = 0;
  has_ngksi = false;
  ngksi = 0;
  has_additional_5g_sec_info = false;
  additional_5g_sec_info = 0;
  config_update_ack_requested = false;
}

-- `((uint16_t)pdu[pos] << 8) | pdu[pos + 1]`; the two bytes do not overlap.
abbrev pub read_be16 : List ℕ → ℕ → Outcome ℕ
read_be16 pdu pos = do high ← read pdu pos; low ← read pdu (pos + 1); ok (high * 2 ^ 8 + low)

-- The arrays of an event keep their sizes, and its small fields their ranges.
pub record IsWellFormed (e : NasEvent) : Type 0 where
  pub guti_size : length e.guti ≡ 16
  pub guti_fits : e.guti_len ≤ 16
  pub guti_some : e.has_guti ≡ true → 1 ≤ e.guti_len
  pub ipv4_size : length e.ipv4_addr ≡ 4
  pub dns_size : length e.dns_ipv4 ≡ 4
  pub pcscf_size : length e.pcscf_ipv4 ≡ 4
  pub abba_size : length e.auth_abba ≡ 16
  pub abba_fits : e.auth_abba_len ≤ 16
  pub rand_size : length e.auth_rand ≡ 16
  pub autn_size : length e.auth_autn ≡ 16
  pub ngksi_small : e.ngksi < 8
  pub enc_small : e.sec_enc_alg < 16
  pub int_small : e.sec_int_alg < 16
  pub inner_some : e.has_inner_sm ≡ true → 1 ≤ length e.inner_sm

pub empty_event-IsWellFormed : IsWellFormed empty_event
empty_event-IsWellFormed = ground arith

-- A 16-bit field inside the message is read.
pub Safe-read_be16 {ℓ} :
    {A : Type ℓ} (P : A → Type 0) (pdu : List ℕ) (pos : ℕ) (f : ℕ → Outcome A)
    → pos + 2 ≤ length pdu
    → ((v : ℕ) → Safe P (f v))
    → Safe P (read_be16 pdu pos >>= f)
Safe-read_be16 P pdu pos f h k =
    rw (read_ok pdu pos (omega arith), read_ok pdu (pos + 1) (omega arith))
      (k (get_or pdu pos 0 * 2 ^ 8 + get_or pdu (pos + 1) 0))
