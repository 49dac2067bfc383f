-- ===== src/Ran/State.antt =====
-- The types of src/ue_engine/ue_ran_transport.h.
use virtuallte.Common.{ℕ, Bool, true, false, Option, none, List, [], CString}
use virtuallte.Rls.{PduType}

abbrev pub max_gnb : ℕ
max_gnb = 8

abbrev pub max_cells : ℕ
max_cells = 16

abbrev pub rx_queue_size : ℕ
rx_queue_size = 32

abbrev pub rx_pdu_max : ℕ
rx_pdu_max = 8192

abbrev pub pending_ack_max : ℕ
pending_ack_max = 64

abbrev pub default_rls_port : ℕ
default_rls_port = 4997

abbrev pub default_hb_interval : ℕ
default_hb_interval = 1000

abbrev pub default_hb_timeout : ℕ
default_hb_timeout = 2000

abbrev pub ack_send_interval : ℕ
ack_send_interval = 2250

-- `enum ue_ran_transport_state`
pub data TransportState : Type 0 where
  idle searching connected lost : TransportState

abbrev pub is_state : TransportState → TransportState → Bool
is_state TransportState.idle TransportState.idle = true
is_state TransportState.searching TransportState.searching = true
is_state TransportState.connected TransportState.connected = true
is_state TransportState.lost TransportState.lost = true
is_state a b = false

-- The fields of a `struct sockaddr_in` that the source looks at.
pub record SockAddr : Type 0 where
  pub family : ℕ
  pub s_addr : ℕ
  pub port : ℕ

abbrev pub af_inet : ℕ
af_inet = 2

pub record GnbEndpoint : Type 0 where
  pub address : CString
  pub port : ℕ

-- `struct ue_ran_cell_info`. The level `dbm` is the bit pattern of an `int`; an address of length 0
-- is `none`.
pub record CellInfo : Type 0 where
  pub valid : Bool
  pub sti : ℕ
  pub cell_id : ℕ
  pub dbm : ℕ
  pub last_seen_ms : ℕ
  pub addr : Option SockAddr

-- `memset(cell, 0, sizeof(*cell))`
abbrev pub no_cell : CellInfo
no_cell = record { valid = false; sti = 0; cell_id = 0; dbm = 0; last_seen_ms = 0; addr = none }

-- `struct ue_ran_rx_entry`: `bytes` are the first `len` bytes of `data`. The session `psi` is the bit
-- pattern of an `int`.
pub record RxEntry : Type 0 where
  pub valid : Bool
  pub pdu_type : Option PduType
  pub psi : ℕ
  pub rrc_channel : ℕ
  pub bytes : List ℕ

-- `memset(e, 0, sizeof(*e))`
abbrev pub no_entry : RxEntry
no_entry = record { valid = false; pdu_type = none; psi = 0; rrc_channel = 0; bytes = [] }

-- A queue with its `head` and its `tail`.
pub record RxQueue : Type 0 where
  pub slots : List RxEntry
  pub head : ℕ
  pub tail : ℕ

-- `struct ue_ran_transport_ctx`. A `serving_cell_id` of -1 is `none`, the socket is open or not, and
-- the arrays of endpoints and ids are as long as their counts. The transmit and the receive buffer
-- hold nothing from one call to the next.
pub record Transport : Type 0 where
  pub state : TransportState
  pub gnb_list : List GnbEndpoint
  pub cells : List CellInfo
  pub cell_count : ℕ
  pub serving_cell_id : Option ℕ
  pub next_cell_id : ℕ
  pub sti : ℕ
  pub socket_open : Bool
  pub last_heartbeat_ms : ℕ
  pub heartbeat_interval_ms : ℕ
  pub heartbeat_timeout_ms : ℕ
  pub next_pdu_id : ℕ
  pub nas_queue : RxQueue
  pub data_queue : RxQueue
  pub pending_ack_ids : List ℕ
  pub last_ack_send_ms : ℕ
  pub tx_pdu_count : ℕ
  pub rx_pdu_count : ℕ
  pub tx_bytes : ℕ
  pub rx_bytes : ℕ
