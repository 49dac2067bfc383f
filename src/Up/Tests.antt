-- ===== src/Up/Tests.antt =====
-- Runs of ue_up.c, and its theorems at concrete contexts.
use virtuallte.Common.{
  ℕ, Bool, true, false, List, [], ◌∷◌, All, set, replicate, none, some, Safe, arith,
}
use virtuallte.Up.State.{UpState, UpSession, UpCtx, Callback, init, empty_session}
use virtuallte.Up.Packets.{Datagram, Drained, process_downlink}
use virtuallte.Up.Invariant.{IsBound}
use virtuallte.Up.Events.{Event, handle, Reach, Reach-IsBound}
use virtuallte.Up.Downlink.{Goes, process_downlink-Goes}

abbrev takes_all : Callback
takes_all psi packet = true

abbrev used_session : Bool → ℕ → UpSession
used_session visible psi = record empty_session { used = true; host_visible = visible; psi = psi }

-- Session 1 belongs to the host, session 2 to an internal service.
abbrev two_sessions : UpCtx
two_sessions = record init {
  state = UpState.active;
  session = used_session true 1;
  has_session = true;
  sessions =
      set (set (replicate 16 empty_session) 1 (used_session true 1)) 2 (used_session false 2);
  host_psi = 1;
  has_transport = true;
  dl_callback = some takes_all;
  internal_dl_callback = some takes_all;
}

abbrev queue : List Datagram
queue =
    record { psi = 1; packet = 69 ∷ [] }
    ∷ record { psi = 2; packet = 70 ∷ [] }
    ∷ record { psi = 5; packet = 71 ∷ [] }
    ∷ []

Reach-IsBound_example :
    IsBound (handle (Event.bind true 3 none none none true) (handle (Event.transport true) init))
Reach-IsBound_example = Reach-IsBound (
    Reach.next (Event.bind true 3 none none none true)
      (Reach.next (Event.transport true) Reach.start))

two_sessions-IsBound : IsBound two_sessions
unfolding init
two_sessions-IsBound = ground arith

process_downlink-Goes_example :
    Safe
      (λ (r : Drained). All (Goes two_sessions) r.deliveries)
      (process_downlink two_sessions true queue)
process_downlink-Goes_example = process_downlink-Goes two_sessions true queue two_sessions-IsBound

-- The internal service alone has a session.
abbrev internal_only : UpCtx
internal_only = record init {
  sessions = set (replicate 16 empty_session) 2 (used_session false 2);
  has_transport = true;
  dl_callback = some takes_all;
}

internal_only-IsBound : IsBound internal_only
unfolding init
internal_only-IsBound = ground arith

abbrev host_packet : Datagram
host_packet = record { psi = 1; packet = 69 ∷ [] }

abbrev service_packet : Datagram
service_packet = record { psi = 2; packet = 69 ∷ [] }
