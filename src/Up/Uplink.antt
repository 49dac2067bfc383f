-- ===== src/Up/Uplink.antt =====
-- What the two sends of ue_up.c hand to the RAN transport, and how they count.
use virtuallte.Common.{ℕ, ◌≤◌, ◌≡◌, true, false, List, some, arith}
use virtuallte.Up.State.{UpCtx, Callback, session_at}
use virtuallte.Up.Packets.{Datagram, offer, send_uplink, send_internal_uplink}
use virtuallte.Up.{is_active}
use virtuallte.Up.Invariant.{IsBound}

-- Only an active data path lets a packet of the host out, whole and under the id of the host's
-- session.
pub send_uplink-offered :
    (up : UpCtx) (accepts : Callback) (packet : List ℕ) (d : Datagram)
    → IsBound up
    → (send_uplink up accepts packet).offered ≡ some d
    → (is_active up ≡ true)
      × (up.has_transport ≡ true)
      × (d.psi ≡ up.host_psi)
      × (1 ≤ d.psi)
      × (d.psi ≤ 15)
      × (d.packet ≡ packet)
unfolding send_uplink offer
send_uplink-offered up accepts packet d h e = ground (arith, h, e)

-- A packet of an internal service goes out under the id of a bound session that is hidden from the
-- host, and under no other.
pub send_internal_uplink-offered :
    (up : UpCtx) (accepts : Callback) (psi : ℕ) (packet : List ℕ) (d : Datagram)
    → (send_internal_uplink up accepts psi packet).offered ≡ some d
    → (d.psi ≡ psi)
      × (1 ≤ psi)
      × (psi ≤ 15)
      × (d.packet ≡ packet)
      × ((session_at up psi).used ≡ true)
      × ((session_at up psi).host_visible ≡ false)
unfolding send_internal_uplink offer
send_internal_uplink-offered up accepts psi packet d e = ground (arith, e)
