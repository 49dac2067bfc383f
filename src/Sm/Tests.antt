-- ===== src/Sm/Tests.antt =====
-- Runs of ue_sm.c, and its theorems at concrete contexts.
use virtuallte.Common.{refl, true, false, [], none, arith}
use virtuallte.Sm.State.{
  SmState, SmProcedure, SmProcStep, PduRejectCause, EstRequest, EstResult, RelRequest, RelResult,
  SmCtx,
}
use virtuallte.Sm.{init, tick, request_connect}
use virtuallte.Sm.Invariant.{IsSound, Ends, tick-Ends}
use virtuallte.Sm.Events.{Event, handle, Reach, Reach-IsSound}

abbrev fresh : SmCtx
fresh = record (init none) { next_pti = 1 }

fresh-IsSound : IsSound fresh
unfolding init
fresh-IsSound = ground arith

-- An establishment that waits for the network's answer.
abbrev asking : SmCtx
asking = record fresh {
  state = SmState.establishing;
  procedure = SmProcedure.establish_pdu;
  proc_step = SmProcStep.wait_establish_response;
  connect_requested = true;
  session_id = 1;
}

asking-IsSound : IsSound asking
unfolding init
asking-IsSound = ground arith

abbrev submits_est : EstRequest → EstResult
submits_est r = record {
  submitted = true;
  reject_cause = PduRejectCause.no_reject;
  selected_psi = 1;
  assigned_ipv4 = [];
  assigned_mtu = 0;
}

abbrev submits_rel : RelRequest → RelResult
submits_rel r = record { submitted = true; reject_cause = PduRejectCause.no_reject }

Reach-IsSound_example : IsSound (request_connect (init none) [])
unfolding handle
Reach-IsSound_example =
    Reach-IsSound submits_est submits_rel
      (Reach.next (Event.connect []) (request_connect (init none) []) refl (Reach.start none))

tick-Ends_example : Ends (tick submits_est submits_rel 2 asking 100 true)
tick-Ends_example = tick-Ends submits_est submits_rel 2 asking 100 true asking-IsSound (omega arith)

abbrev disconnecting : SmCtx
disconnecting = record fresh {
  state = SmState.active;
  disconnect_requested = true;
  connect_requested = false;
}
