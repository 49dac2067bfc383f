-- ===== src/Mm/Tests.antt =====
-- Runs of ue_mm.c, and its theorems at concrete contexts.
use virtuallte.Common.{◌≡◌, ◌⊎◌, inr, ◌<◌, refl, true, false, [], ◌∷◌, arith}
use virtuallte.Mm.State.{
  MmState, MmProcedure, MmProcStep, MmLastCause, RejectClass, RegRejectCause, RegAcceptResult,
  RegType, RegTrigger, RegistrationRequest, RegistrationResult, MmCtx,
}
use virtuallte.Mm.{init, tick, on_registration_reject, on_registration_accept}
use virtuallte.Mm.Procedure.{reject_class_from_cause}
use virtuallte.Mm.Invariant.{IsValid}
use virtuallte.Mm.Events.{Event, handle, Reach, Reach-IsValid}
use virtuallte.Mm.Registration.{Ended, Retried, Armed, Retries, reject_cases, registration_ends}

abbrev blank : MmCtx
blank = record {
  state = MmState.powered_off;
  procedure = MmProcedure.idle;
  proc_step = MmProcStep.none_step;
  last_cause = MmLastCause.no_cause;
  last_reject_class = RejectClass.temporary;
  last_reject_cause_code = 0;
  register_requested = false;
  retry_count = 0;
  max_retries = 2;
  registration_attempt_id = 0;
  last_assigned_guti = [];
  imsi = [];
  mcc = [];
  mnc = [];
  pending_reg_type = RegType.initial;
  pending_reg_trigger = RegTrigger.explicit_request;
  next_step_deadline_ms = 0;
}

-- An adapter that submits every registration.
abbrev submits : RegistrationRequest → RegistrationResult
submits r = record {
  submitted = true;
  reject_class = RejectClass.temporary;
  reject_cause = RegRejectCause.no_reject;
  accept_result = RegAcceptResult.accept_3gpp;
  assigned_guti = [];
}

-- A registration that waits for the network's answer.
abbrev waiting : MmCtx
waiting = record blank {
  state = MmState.registering;
  procedure = MmProcedure.registration;
  proc_step = MmProcStep.wait_registration_response;
  register_requested = true;
}

waiting-IsValid : IsValid waiting
waiting-IsValid = ground arith

Reach-IsValid_example : IsValid (handle submits Event.register (init blank true true))
Reach-IsValid_example =
    Reach-IsValid submits (Reach.next Event.register tt (Reach.start blank true true))

abbrev registered : MmCtx
registered = handle submits Event.accept waiting

registered_run : registered.state ≡ MmState.registered_home
unfolding handle on_registration_accept
registered_run = refl

reject_cases_example :
    ((reject_class_from_cause RegRejectCause.congestion ≡ RejectClass.temporary)
      × (waiting.retry_count < 2)
      × Retried waiting (on_registration_reject waiting RegRejectCause.congestion))
    ⊎ (((reject_class_from_cause RegRejectCause.congestion ≡ RejectClass.permanent)
          ⊎ (waiting.retry_count ≡ 2))
        × Ended MmLastCause.registration_rejected
            (on_registration_reject waiting RegRejectCause.congestion))
reject_cases_example = reject_cases waiting RegRejectCause.congestion waiting-IsValid refl

registration_ends_example :
    Armed 1300 waiting (tick waiting 100) × Retries (1300 ∷ 2500 ∷ 3700 ∷ []) (tick waiting 100)
registration_ends_example =
    registration_ends 100 (1300 ∷ 2500 ∷ 3700 ∷ []) waiting waiting-IsValid (inr refl) refl
      (ground arith) refl
