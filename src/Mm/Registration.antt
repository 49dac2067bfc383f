-- ===== src/Mm/Registration.antt =====
-- How a registration ends: by the network's reject, or by timeouts.
use virtuallte.Common.{
  ℕ, ◌+◌, ◌%◌, ◌^◌, ◌≤◌, ◌<◌, ◌≡◌, ◌≢◌, ◌⊎◌, true, false, List, [], ◌∷◌, length, arith,
}
use virtuallte.Mm.State.{
  MmState, MmProcedure, MmProcStep, MmLastCause, RejectClass, RegRejectCause, MmCtx,
}
use virtuallte.Mm.Procedure.{
  reject_class_from_cause, handle_reject_by_procedure, retry_registration_attempt,
  enter_deregistered, handle_wait, invoke_pending_registration, start_registration_procedure,
}
use virtuallte.Mm.{
  on_registration_reject, tick, request_register, request, on_radio, on_sim, shut_down,
}
use virtuallte.Mm.Invariant.{IsValid}

-- What is left of a registration that ended without success.
pub record Ended (cause : MmLastCause) (mm : MmCtx) : Type 0 where
  pub state : mm.state ≡ MmState.deregistered
  pub procedure : mm.procedure ≡ MmProcedure.idle
  pub last_cause : mm.last_cause ≡ cause
  pub requested : mm.register_requested ≡ false
  pub retries : mm.retry_count ≡ 0

-- A new attempt of the registration of `mm`.
pub record Retried (mm mm' : MmCtx) : Type 0 where
  pub state : mm'.state ≡ MmState.searching
  pub last_cause : mm'.last_cause ≡ MmLastCause.registration_retry
  pub requested : mm'.register_requested ≡ true
  pub retries : mm'.retry_count ≡ mm.retry_count + 1

-- A reject of a requested registration is retried if its class is temporary and a retry is left,
-- and ends the registration in every other case.
pub reject_cases :
    (mm : MmCtx) (cause : RegRejectCause)
    → IsValid mm
    → mm.state ≡ MmState.registering
    → ((reject_class_from_cause cause ≡ RejectClass.temporary)
        × (mm.retry_count < 2)
        × Retried mm (on_registration_reject mm cause))
      ⊎ (((reject_class_from_cause cause ≡ RejectClass.permanent) ⊎ (mm.retry_count ≡ 2))
          × Ended MmLastCause.registration_rejected (on_registration_reject mm cause))
unfolding on_registration_reject handle_reject_by_procedure reject_class_from_cause
    retry_registration_attempt enter_deregistered
reject_cases mm cause v h = ground arith

-- The cause that the network gave does not outlive the reject: whatever it was, the code that the
-- snapshot publishes is 0 after it.
pub reject_erases_cause :
    (mm : MmCtx) (cause : RegRejectCause)
    → mm.state ≡ MmState.registering
    → mm.register_requested ≡ true
    → (on_registration_reject mm cause).last_reject_cause_code ≡ 0
unfolding on_registration_reject handle_reject_by_procedure retry_registration_attempt
    enter_deregistered
reject_erases_cause mm cause h r = ground arith

-- The ticks come 1200 ms apart at least, the first of them not before `due`.
abbrev pub Spaced : ℕ → List ℕ → Type 0
Spaced due [] = Unit {0}
Spaced due (t ∷ ts) = (due ≤ t) × (t < 2 ^ 63) × Spaced (t + 1200) ts

-- An armed wait for a cell or an answer.
pub record Waiting (due : ℕ) (mm : MmCtx) : Type 0 where
  pub valid : IsValid mm
  pub running : (mm.state ≡ MmState.searching) ⊎ (mm.state ≡ MmState.registering)
  pub armed : mm.next_step_deadline_ms ≡ due
  pub later : due ≢ 0

-- A tick that only arms the wait.
pub record Armed (due : ℕ) (mm mm' : MmCtx) : Type 0 where
  pub due_at : mm'.next_step_deadline_ms ≡ due
  pub same_state : mm'.state ≡ mm.state
  pub same_cause : mm'.last_cause ≡ mm.last_cause
  pub requested : mm'.register_requested ≡ true
  pub same_retries : mm'.retry_count ≡ mm.retry_count

-- What the ticks do one after another: each but the last starts a retry, from the selection of a
-- cell and under the next attempt id, and the last ends the registration.
abbrev pub Retries : List ℕ → MmCtx → Type 0
Retries [] mm = ⊥
Retries (t ∷ []) mm = Ended MmLastCause.registration_timeout (tick mm t)
Retries (t ∷ u ∷ ts) mm =
    Retried mm (tick mm t)
    × ((tick mm t).proc_step ≡ MmProcStep.wait_cell_selection)
    × ((tick mm t).registration_attempt_id ≡ (mm.registration_attempt_id + 1) % 2 ^ 32)
    × Retries (u ∷ ts) (tick mm t)

tick_retries :
    (mm : MmCtx) (due t : ℕ)
    → Waiting due mm
    → due ≤ t
    → t < 2 ^ 63
    → mm.retry_count < 2
    → Waiting (t + 1200) (tick mm t)
      × Retried mm (tick mm t)
      × ((tick mm t).proc_step ≡ MmProcStep.wait_cell_selection)
      × ((tick mm t).registration_attempt_id ≡ (mm.registration_attempt_id + 1) % 2 ^ 32)
unfolding tick handle_wait retry_registration_attempt
tick_retries mm due t w h k r = ground arith

tick_gives_up :
    (mm : MmCtx) (due t : ℕ)
    → Waiting due mm
    → due ≤ t
    → mm.retry_count ≡ 2
    → Ended MmLastCause.registration_timeout (tick mm t)
unfolding tick handle_wait enter_deregistered
tick_gives_up mm due t w h r = ground arith

ticks-Retries :
    (ts : List ℕ) (mm : MmCtx) (due : ℕ)
    → Waiting due mm
    → Spaced due ts
    → length ts + mm.retry_count ≡ 3
    → Retries ts mm
ticks-Retries [] mm due w s n = absurd (omega arith)
ticks-Retries (t ∷ []) mm due w s n = tick_gives_up mm due t w s.0 (omega arith)
ticks-Retries (t ∷ u ∷ ts) mm due w s n =
    let (w', r, step, id) = tick_retries mm due t w s.0 s.1 (omega arith) in
    (r, step, id, ticks-Retries (u ∷ ts) (tick mm t) (t + 1200) w' s.2 (omega (arith, r.retries)))

tick_arms :
    (mm : MmCtx) (t : ℕ)
    → IsValid mm
    → (mm.state ≡ MmState.searching) ⊎ (mm.state ≡ MmState.registering)
    → mm.next_step_deadline_ms ≡ 0
    → t < 2 ^ 63
    → Waiting (t + 1200) (tick mm t) × Armed (t + 1200) mm (tick mm t)
unfolding tick handle_wait
tick_arms mm t v s d h = ground arith

-- With no answer from the network a registration ends. In a context that keeps its invariant, is
-- searching or registering and has no wait armed, of ticks 1200 ms apart at least, the first arms
-- the wait of 1200 ms and changes neither state nor count, one for each retry left starts that retry,
-- under the next attempt id, and the next leaves the UE deregistered by timeout.
pub registration_ends :
    (t : ℕ) (ts : List ℕ) (mm : MmCtx)
    → IsValid mm
    → (mm.state ≡ MmState.searching) ⊎ (mm.state ≡ MmState.registering)
    → mm.next_step_deadline_ms ≡ 0
    → Spaced 0 (t ∷ ts)
    → length ts + mm.retry_count ≡ 3
    → Armed (t + 1200) mm (tick mm t) × Retries ts (tick mm t)
registration_ends t ts mm v s d sp n =
    let (w, a) = tick_arms mm t v s d sp.1 in
    (a, ticks-Retries ts (tick mm t) (t + 1200) w sp.2 (omega (arith, a.same_retries)))

-- The state is all that records a missing SIM or a switched-off radio, and either event overwrites
-- the other: a radio that goes off and on starts a registration with no SIM, and a SIM that goes
-- and comes back leaves a UE with its radio off deregistered rather than powered off.
pub radio_and_sim_forget :
    (mm : MmCtx)
    → ((request_register (on_radio (on_radio (on_sim mm false) false) true)).state
        ≡ MmState.searching)
      × ((on_sim (on_sim (on_radio mm false) false) true).state ≡ MmState.deregistered)
unfolding on_radio on_sim shut_down request_register request invoke_pending_registration
    start_registration_procedure enter_deregistered
radio_and_sim_forget mm = ground arith
