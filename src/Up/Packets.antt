-- ===== src/Up/Packets.antt =====
-- The packets of src/ue_engine/ue_up.c: both sends, and the loop of the downlink.
use virtuallte.Common.{
  ℕ, ◌+◌, ◌%◌, ◌^◌, Bool, true, false, not, ◌||◌, ◌&&◌, ◌==◌, if◌then◌else◌, Option, none, some,
  List, [], ◌∷◌, length, take, Outcome, ok, reject,
}
use virtuallte.Up.State.{UpState, UpSession, Callback, UpCtx, in_state, session_at, out_of_range}

-- A packet with the session that it belongs to.
pub record Datagram : Type 0 where
  pub psi : ℕ
  pub packet : List ℕ

-- A send: the context, whether the call succeeds, and what it offered to the transport.
pub record Sent : Type 0 where
  pub up : UpCtx
  pub success : Bool
  pub offered : Option Datagram

abbrev pub refuse : UpCtx → Sent
refuse up = record { up = up; success = false; offered = none }

abbrev pub ul_drop : UpCtx → UpCtx
ul_drop up = record up { ul_drops = (up.ul_drops + 1) % 2 ^ 64 }

-- What both sends do with a packet that may go.
unfoldable pub offer : UpCtx → Callback → ℕ → List ℕ → Sent
offer up accepts psi packet =
    if accepts psi packet
    then record {
      up = record up {
        ul_packets = (up.ul_packets + 1) % 2 ^ 64;
        ul_bytes = (up.ul_bytes + length packet) % 2 ^ 64;
      };
      success = true;
      offered = some (record { psi = psi; packet = packet });
    }
    else record {
      up = ul_drop up;
      success = false;
      offered = some (record { psi = psi; packet = packet });
    }

unfoldable pub send_uplink : UpCtx → Callback → List ℕ → Sent
send_uplink up accepts packet =
    if length packet == 0
    then refuse up
    else if not (in_state up UpState.active) || not up.has_session
    then refuse (ul_drop up)
    else if not up.has_transport
    then refuse (ul_drop up)
    else offer up accepts up.host_psi packet

unfoldable pub send_internal_uplink : UpCtx → Callback → ℕ → List ℕ → Sent
send_internal_uplink up accepts psi packet =
    if length packet == 0 || out_of_range psi
    then refuse up
    else if not up.has_transport || not (session_at up psi).used || (session_at up psi).host_visible
    then refuse (ul_drop up)
    else offer up accepts psi packet

-- Whom a packet of the downlink is handed to, if the callback takes it.
pub data Delivery : Type 0 where
  to_host to_internal : Datagram → Delivery

-- What one packet leads to: the context, and the delivery that was made.
pub record Routed : Type 0 where
  pub up : UpCtx
  pub delivery : Option Delivery

abbrev pub dl_drop : UpCtx → Routed
dl_drop up = record { up = record up { dl_drops = (up.dl_drops + 1) % 2 ^ 64 }; delivery = none }

-- The body of the loop of `ue_up_process_downlink`.
unfoldable pub route : UpCtx → Datagram → Routed
route up d =
    if not (d.psi == up.host_psi)
    then (if not (out_of_range d.psi)
          && (session_at up d.psi).used
          && not (session_at up d.psi).host_visible
        then elim up.internal_dl_callback [
          | none ↦ dl_drop up
          | some cb ↦
              if cb d.psi d.packet
              then record { up = up; delivery = some (Delivery.to_internal d) }
              else dl_drop up
        ]
        else dl_drop up)
    else elim up.dl_callback [
      | none ↦ dl_drop up
      | some cb ↦
          if cb d.psi d.packet
          then record {
            up = record up {
              dl_packets = (up.dl_packets + 1) % 2 ^ 64;
              dl_bytes = (up.dl_bytes + length d.packet) % 2 ^ 64;
            };
            delivery = some (Delivery.to_host d);
          }
          else dl_drop up
    ]

-- The loop: the context, the deliveries in order, and the queue that is left. An entry without a
-- byte is taken off the queue and ends the loop.
pub record Drained : Type 0 where
  pub up : UpCtx
  pub deliveries : List Delivery
  pub queue : List Datagram

abbrev pub add_delivery : Option Delivery → List Delivery → List Delivery
add_delivery none ds = ds
add_delivery (some d) ds = d ∷ ds

unfoldable pub drain : UpCtx → List Datagram → Drained
drain up [] = record { up = up; deliveries = []; queue = [] }
drain up (entry ∷ queue) =
    let d : Datagram = record entry { packet = take 16384 entry.packet } in
    let routed = route up d in
    let rest = drain routed.up queue in
    if length d.packet == 0
    then record { up = up; deliveries = []; queue = queue }
    else record rest { deliveries = add_delivery routed.delivery rest.deliveries }

-- Whether a session is bound under one of the ids from 1 on.
abbrev pub any_used : List UpSession → Bool
any_used [] = false
any_used (s ∷ ss) = s.used || any_used ss

abbrev pub tail_sessions : List UpSession → List UpSession
tail_sessions [] = []
tail_sessions (s ∷ ss) = ss

-- `ue_up_process_downlink`; the number that it returns is that of the deliveries.
unfoldable pub process_downlink : UpCtx → Bool → List Datagram → Outcome Drained
process_downlink up connected queue =
    if not up.has_transport
    then reject
    else if not (up.has_session || any_used (tail_sessions up.sessions)) || not connected
    then ok record { up = up; deliveries = []; queue = queue }
    else ok (drain up queue)
