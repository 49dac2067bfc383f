-- ===== src/Sm/Invariant.antt =====
-- The invariant of the session management, kept by every operation of ue_sm.c.
use virtuallte.Common.{
  ℕ, zero, suc, ◌+◌, ◌≤◌, ◌<◌, ◌≡◌, refl, Bool, true, false, Option, none, some, arith,
}
use virtuallte.Sm.State.{
  SmState, SmLastCause, SmProcedure, SmProcStep, PduRejectCause, EstRequest, EstResult, RelRequest,
  RelResult, SmCtx,
}
use virtuallte.Sm.Procedure.{
  alloc_pti, enter_inactive, begin_establish, record_reject, give_up, begin_retry, accept_submit,
  start_establish, handle_establish_reject, on_pdu_session_reject, handle_release_submit_result,
  start_release, build_establish_request,
}
use virtuallte.Sm.{tick_establishing, tick_releasing, tick_disconnect, tick_connect, tick}

-- A state goes with one step of one procedure.
abbrev pub Coherent : SmState → SmProcedure → SmProcStep → Type 0
Coherent SmState.establishing p s =
    (p ≡ SmProcedure.establish_pdu) × (s ≡ SmProcStep.wait_establish_response)
Coherent SmState.releasing p s =
    (p ≡ SmProcedure.release_pdu) × (s ≡ SmProcStep.wait_release_complete)
Coherent _ p s = (p ≡ SmProcedure.idle) × (s ≡ SmProcStep.none_step)

pub record IsSound (sm : SmCtx) : Type 0 where
  pub coherent : Coherent sm.state sm.procedure sm.proc_step
  pub retries : sm.retry_count ≤ 1
  pub limit : sm.max_retries ≡ 1
  pub retransmissions : sm.est_retx_count ≤ 4
  pub pti_range : sm.pti ≤ 254
  pub cursor : sm.next_pti ≤ 254

-- A computation that comes to an end, in a valid context.
abbrev pub Ends : Option SmCtx → Type 0
Ends none = ⊥
Ends (some sm) = IsSound sm

abbrev rejected : SmCtx → PduRejectCause → SmCtx
rejected sm cause =
    enter_inactive (record_reject sm cause) SmLastCause.establish_rejected false true

retry-IsSound :
    {sm : SmCtx} (cause : PduRejectCause)
    → IsSound sm
    → sm.retry_count < 1
    → IsSound (begin_retry (rejected sm cause))
      × ((begin_retry (rejected sm cause)).retry_count ≡ 1)
unfolding enter_inactive record_reject begin_retry
retry-IsSound cause v h = ground arith

give_up-IsSound :
    {sm : SmCtx} (cause : PduRejectCause) → IsSound sm → IsSound (give_up (rejected sm cause))
unfolding enter_inactive record_reject give_up
give_up-IsSound cause v = ground arith

accept_submit-IsSound : {sm : SmCtx} (r : EstResult) → IsSound sm → IsSound (accept_submit sm r)
unfolding accept_submit
accept_submit-IsSound r v = ground arith

begin_establish-IsSound :
    {sm : SmCtx}
    → IsSound sm
    → IsSound (begin_establish sm) × ((begin_establish sm).retry_count ≡ sm.retry_count)
unfolding begin_establish alloc_pti
begin_establish-IsSound v = ground arith

rejected_fields :
    (sm : SmCtx) (cause : PduRejectCause)
    → ((rejected sm cause).retry_count ≡ sm.retry_count)
      × ((rejected sm cause).max_retries ≡ sm.max_retries)
unfolding enter_inactive record_reject
rejected_fields sm cause = (refl, refl)

module _ (submit_establish : EstRequest → EstResult) where
  -- Two rounds of fuel are enough for a valid context, one if its retry is used up.
  pub start_establish-Ends :
      (fuel : ℕ) (sm : SmCtx)
      → IsSound sm
      → 2 ≤ sm.retry_count + fuel
      → Ends (start_establish submit_establish fuel sm)
  unfolding start_establish
  start_establish-Ends zero sm v h = absurd (omega arith)
  start_establish-Ends (suc fuel) sm v h =
      let sm' = begin_establish sm in
      let result = submit_establish (build_establish_request sm') in
      let cause = result.reject_cause in
      let (v', same) = begin_establish-IsSound v in
      ground (
        arith,
        v',
        same,
        accept_submit-IsSound result v',
        give_up-IsSound cause v',
        retry-IsSound cause v',
        rejected_fields sm' cause,
        start_establish-Ends fuel (begin_retry (rejected sm' cause)),
      )

  pub on_pdu_session_reject-Ends :
      {sm : SmCtx} (fuel : ℕ) (cause : PduRejectCause)
      → IsSound sm
      → 2 ≤ fuel
      → Ends (on_pdu_session_reject submit_establish fuel sm cause)
  unfolding on_pdu_session_reject handle_establish_reject
  on_pdu_session_reject-Ends {sm} fuel cause v h = ground (
    arith,
    give_up-IsSound cause v,
    retry-IsSound cause v,
    rejected_fields sm cause,
    start_establish-Ends fuel (begin_retry (rejected sm cause)),
  )

  pub tick_connect-Ends :
      {sm : SmCtx} (fuel : ℕ) → IsSound sm → 2 ≤ fuel → Ends (tick_connect submit_establish fuel sm)
  unfolding tick_connect
  tick_connect-Ends {sm} fuel v h =
      ground (arith, start_establish-Ends fuel (record sm { connect_requested = false }))

tick_disconnect-IsSound :
    {sm : SmCtx} (submit_release : RelRequest → RelResult)
    → IsSound sm
    → IsSound (tick_disconnect submit_release sm)
unfolding tick_disconnect start_release handle_release_submit_result alloc_pti enter_inactive
tick_disconnect-IsSound submit_release v = ground arith

tick_waits-IsSound :
    {sm : SmCtx} (now : ℕ)
    → IsSound sm
    → IsSound (tick_establishing sm now) × IsSound (tick_releasing sm now)
unfolding tick_establishing tick_releasing enter_inactive
tick_waits-IsSound now v = (ground arith, ground arith)

-- A tick comes to an end, whatever the network adapter answers, and leaves a valid context.
pub tick-Ends :
    (submit_establish : EstRequest → EstResult) (submit_release : RelRequest → RelResult) (fuel : ℕ)
    (sm : SmCtx) (now : ℕ) (mm_registered : Bool)
    → IsSound sm
    → 2 ≤ fuel
    → Ends (tick submit_establish submit_release fuel sm now mm_registered)
unfolding tick
tick-Ends submit_establish submit_release fuel sm now false v h =
    unfold enter_inactive in ground arith
tick-Ends submit_establish submit_release fuel sm now true v h =
    finish (tick_connect submit_establish fuel (tick_disconnect submit_release sm))
      (tick_connect-Ends submit_establish fuel (tick_disconnect-IsSound submit_release v) h)
  where
    finish :
        (r : Option SmCtx)
        → Ends r
        → Ends (elim r [
          | none ↦ none
          | some sm' ↦ some (tick_releasing (tick_establishing sm' now) now)
        ])
    finish none e = e
    finish (some sm') e = (tick_waits-IsSound now (tick_waits-IsSound now e).0).1
