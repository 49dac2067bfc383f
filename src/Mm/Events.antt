-- ===== src/Mm/Events.antt =====
-- What can happen to the mobility management: its operations as events, and runs of them.
use virtuallte.Common.{ℕ, ◌≡◌, ◌⊎◌, Bool, true, Option, CString, arith}
use virtuallte.Mm.State.{MmState, RegRejectCause, RegistrationRequest, RegistrationResult, MmCtx}
use virtuallte.Mm.{
  init, on_radio, on_sim, set_profile, request_register, request_mobility_update,
  request_periodic_update, request, on_cell_found, transition_to_registering,
  on_registration_accept, on_registration_reject, tick, shut_down,
}
use virtuallte.Mm.Procedure.{
  handle_registration_submit_result, handle_reject_by_procedure, retry_registration_attempt,
  enter_deregistered, invoke_pending_registration, start_registration_procedure, handle_wait,
}
use virtuallte.Mm.Invariant.{
  IsValid, init-IsValid, on_radio-IsValid, on_sim-IsValid, request-IsValid, on_cell_found-IsValid,
  transition_to_registering-IsValid, on_registration_accept-IsValid, on_registration_reject-IsValid,
  tick-IsValid,
}

pub data Event : Type 0 where
  radio sim : Bool → Event
  profile : (imsi mcc mnc : Option CString) → Event
  register mobility periodic cell_found to_registering accept : Event
  reject : RegRejectCause → Event
  tick_at : ℕ → Event

module _ (submit : RegistrationRequest → RegistrationResult) where
  unfoldable pub handle : Event → MmCtx → MmCtx
  handle (Event.radio on) mm = on_radio mm on
  handle (Event.sim ready) mm = on_sim mm ready
  handle (Event.profile i c n) mm = set_profile mm i c n
  handle Event.register mm = request_register mm
  handle Event.mobility mm = request_mobility_update mm
  handle Event.periodic mm = request_periodic_update mm
  handle Event.cell_found mm = on_cell_found submit mm
  handle Event.to_registering mm = transition_to_registering mm
  handle Event.accept mm = on_registration_accept mm
  handle (Event.reject cause) mm = on_registration_reject mm cause
  handle (Event.tick_at now) mm = tick mm now

  -- The engine calls `ue_mm_transition_to_registering` in the state SEARCHING only.
  abbrev pub Allowed : Event → MmCtx → Type 0
  Allowed Event.to_registering mm = mm.state ≡ MmState.searching
  Allowed _ mm = Unit {0}

  pub handle-IsValid : (e : Event) {mm : MmCtx} → Allowed e mm → IsValid mm → IsValid (handle e mm)
  unfolding handle request_register request_mobility_update request_periodic_update
  handle-IsValid (Event.radio on) a v = on_radio-IsValid on v
  handle-IsValid (Event.sim ready) a v = on_sim-IsValid ready v
  handle-IsValid (Event.profile i c n) a v = unfold set_profile in ground arith
  handle-IsValid Event.register a v = request-IsValid _ _ v
  handle-IsValid Event.mobility a v = request-IsValid _ _ v
  handle-IsValid Event.periodic a v = request-IsValid _ _ v
  handle-IsValid Event.cell_found a v = on_cell_found-IsValid submit v
  handle-IsValid Event.to_registering a v = transition_to_registering-IsValid v a
  handle-IsValid Event.accept a v = on_registration_accept-IsValid v
  handle-IsValid (Event.reject cause) a v = on_registration_reject-IsValid cause v
  handle-IsValid (Event.tick_at now) a v = tick-IsValid now v

  -- The contexts that a run of allowed events leads to from an initialised one.
  pub data Reach : MmCtx → Type 0 where
    start : (mm : MmCtx) (radio_on sim_present : Bool) → Reach (init mm radio_on sim_present)
    next : {mm : MmCtx} (e : Event) → Allowed e mm → Reach mm → Reach (handle e mm)

  -- Whatever happens after `ue_mm_init`, state, procedure and step agree, a running registration
  -- is requested, and there are at most two retries.
  pub Reach-IsValid : {mm : MmCtx} → Reach mm → IsValid mm
  Reach-IsValid (start mm r s) = init-IsValid mm r s
  Reach-IsValid (next e a r) = handle-IsValid e a (Reach-IsValid r)

  -- One event makes the UE registered only if it is the network's accept in the state REGISTERING
  -- of a requested registration.
  pub handle_registers :
      (e : Event) (mm : MmCtx)
      → (handle e mm).state ≡ MmState.registered_home
      → (mm.state ≡ MmState.registered_home)
        ⊎ ((e ≡ Event.accept) × (mm.state ≡ MmState.registering) × (mm.register_requested ≡ true))
  unfolding handle
  handle_registers (Event.radio on) mm h =
      unfold on_radio shut_down enter_deregistered in ground arith
  handle_registers (Event.sim ready) mm h = unfold on_sim shut_down in ground arith
  handle_registers (Event.profile i c n) mm h = unfold set_profile in ground arith
  handle_registers Event.register mm h =
      unfold request_register request invoke_pending_registration start_registration_procedure in
      ground arith
  handle_registers Event.mobility mm h =
      unfold request_mobility_update request invoke_pending_registration
        start_registration_procedure in
      ground arith
  handle_registers Event.periodic mm h =
      unfold request_periodic_update request invoke_pending_registration
        start_registration_procedure in
      ground arith
  handle_registers Event.cell_found mm h =
      unfold on_cell_found handle_registration_submit_result handle_reject_by_procedure
        retry_registration_attempt enter_deregistered in
      ground arith
  handle_registers Event.to_registering mm h = unfold transition_to_registering in ground arith
  handle_registers Event.accept mm h = unfold on_registration_accept in ground arith
  handle_registers (Event.reject cause) mm h =
      unfold on_registration_reject handle_reject_by_procedure retry_registration_attempt
        enter_deregistered in
      ground arith
  handle_registers (Event.tick_at now) mm h =
      unfold tick handle_wait retry_registration_attempt enter_deregistered in ground arith
