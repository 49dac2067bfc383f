-- ===== src/Mm/Invariant.antt =====
-- The invariant of the mobility management, kept by every operation of ue_mm.c.
use virtuallte.Common.{ℕ, ◌≤◌, ◌≡◌, Bool, true, arith}
use virtuallte.Mm.State.{
  MmState, MmProcedure, MmProcStep, RegType, RegTrigger, RegRejectCause, RegistrationRequest,
  RegistrationResult, MmCtx,
}
use virtuallte.Mm.Procedure.{
  enter_deregistered, start_registration_procedure, invoke_pending_registration,
  retry_registration_attempt, handle_reject_by_procedure, handle_registration_submit_result,
  handle_wait,
}
use virtuallte.Mm.{
  init, shut_down, on_radio, on_sim, request, on_cell_found, transition_to_registering,
  on_registration_accept, on_registration_reject, tick,
}

-- A state goes with one step of one procedure: searching waits for a cell, registering waits for
-- the network's answer, and in every other state no procedure runs.
abbrev pub Coherent : MmState → MmProcedure → MmProcStep → Type 0
Coherent MmState.searching p s =
    (p ≡ MmProcedure.registration) × (s ≡ MmProcStep.wait_cell_selection)
Coherent MmState.registering p s =
    (p ≡ MmProcedure.registration) × (s ≡ MmProcStep.wait_registration_response)
Coherent _ p s = (p ≡ MmProcedure.idle) × (s ≡ MmProcStep.none_step)

-- While a registration runs it is requested.
abbrev pub Requested : MmState → Bool → Type 0
Requested MmState.searching r = r ≡ true
Requested MmState.registering r = r ≡ true
Requested _ r = Unit {0}

pub record IsValid (mm : MmCtx) : Type 0 where
  pub coherent : Coherent mm.state mm.procedure mm.proc_step
  pub requested : Requested mm.state mm.register_requested
  pub retries : mm.retry_count ≤ mm.max_retries
  pub limit : mm.max_retries ≡ 2

pub init-IsValid :
    (mm : MmCtx) (radio_on sim_present : Bool) → IsValid (init mm radio_on sim_present)
unfolding init
init-IsValid mm radio_on sim_present = ground arith

pub handle_reject-IsValid :
    {mm : MmCtx} (cause : RegRejectCause)
    → IsValid mm
    → IsValid (handle_reject_by_procedure mm cause)
unfolding handle_reject_by_procedure retry_registration_attempt enter_deregistered
handle_reject-IsValid cause v = ground arith

pub tick-IsValid : {mm : MmCtx} (now : ℕ) → IsValid mm → IsValid (tick mm now)
unfolding tick handle_wait retry_registration_attempt enter_deregistered
tick-IsValid now v = ground arith

pub on_radio-IsValid : {mm : MmCtx} (on : Bool) → IsValid mm → IsValid (on_radio mm on)
unfolding on_radio shut_down enter_deregistered
on_radio-IsValid on v = ground arith

pub on_sim-IsValid : {mm : MmCtx} (ready : Bool) → IsValid mm → IsValid (on_sim mm ready)
unfolding on_sim shut_down
on_sim-IsValid ready v = ground arith

pub request-IsValid :
    {mm : MmCtx} (t : RegType) (g : RegTrigger) → IsValid mm → IsValid (request t g mm)
unfolding request invoke_pending_registration start_registration_procedure
request-IsValid t g v = ground arith

pub on_cell_found-IsValid :
    {mm : MmCtx} (submit : RegistrationRequest → RegistrationResult)
    → IsValid mm
    → IsValid (on_cell_found submit mm)
unfolding on_cell_found handle_registration_submit_result handle_reject_by_procedure
    retry_registration_attempt enter_deregistered
on_cell_found-IsValid {mm} submit v = ground arith

-- The engine makes this transition in the state SEARCHING only.
pub transition_to_registering-IsValid :
    {mm : MmCtx}
    → IsValid mm
    → mm.state ≡ MmState.searching
    → IsValid (transition_to_registering mm)
unfolding transition_to_registering
transition_to_registering-IsValid v h = ground arith

pub on_registration_accept-IsValid : {mm : MmCtx} → IsValid mm → IsValid (on_registration_accept mm)
unfolding on_registration_accept
on_registration_accept-IsValid v = ground arith

pub on_registration_reject-IsValid :
    {mm : MmCtx} (cause : RegRejectCause) → IsValid mm → IsValid (on_registration_reject mm cause)
unfolding on_registration_reject
on_registration_reject-IsValid {mm} cause v = ground (arith, handle_reject-IsValid cause v)
