-- ===== src/Sm/Session.antt =====
-- How a PDU session is named, given up and released.
use virtuallte.Common.{ℕ, zero, suc, ◌+◌, ◌-◌, ◌%◌, ◌≤◌, ◌<◌, ◌≡◌, ◌≢◌, true, false, some, arith}
use virtuallte.Sm.State.{
  SmState, SmLastCause, SmProcedure, SmProcStep, EstRequest, EstResult, RelRequest, RelResult,
  SmCtx,
}
use virtuallte.Sm.Procedure.{
  alloc_pti, enter_inactive, start_release, handle_release_submit_result, build_release_request,
}
use virtuallte.Sm.{
  on_pdu_session_established, tick_establishing, tick_releasing, tick_disconnect, tick_connect,
  tick,
}

-- The context after `n` allocations.
pub alloc_times : ℕ → SmCtx → SmCtx
alloc_times zero sm = sm
alloc_times (suc n) sm = alloc_pti (alloc_times n sm)

-- Where the cursor starts.
abbrev pub FirstPti : SmCtx → Type 0
FirstPti sm = (1 ≤ sm.next_pti) × (sm.next_pti ≤ 254)

alloc_times_lem :
    (n : ℕ) (sm : SmCtx)
    → FirstPti sm
    → ((alloc_times n sm).next_pti ≡ (sm.next_pti - 1 + n) % 254 + 1)
      × ((alloc_times (suc n) sm).pti ≡ (sm.next_pti - 1 + n) % 254 + 1)
unfolding alloc_times alloc_pti
alloc_times_lem zero sm h = ground arith
alloc_times_lem (suc n) sm h = ground (arith, alloc_times_lem n sm h)

-- Every allocated transaction identity is in the range 1 to 254 that TS 24.501 leaves to procedures,
-- and any two of 254 allocations in a row differ.
pub pti_distinct :
    (sm : SmCtx) (i j : ℕ)
    → FirstPti sm
    → i < j
    → j < i + 254
    → (1 ≤ (alloc_times (suc i) sm).pti)
      × ((alloc_times (suc i) sm).pti ≤ 254)
      × ((alloc_times (suc i) sm).pti ≢ (alloc_times (suc j) sm).pti)
pti_distinct sm i j h lt near =
    omega (arith, (alloc_times_lem i sm h).1, (alloc_times_lem j sm h).1)

-- The session identity that the accept carried is cleared by the very handler of the accept: the
-- release request of an established session names session 0, whatever identity was recorded.
pub release_names_zero :
    (sm : SmCtx)
    → sm.state ≡ SmState.establishing
    → (build_release_request (alloc_pti (on_pdu_session_established sm))).pdu_session_id ≡ 0
unfolding build_release_request alloc_pti on_pdu_session_established
release_names_zero sm h = ground arith

module _ (submit_establish : EstRequest → EstResult) (submit_release : RelRequest → RelResult) where
  release_fields :
      (sm : SmCtx)
      → ((r : RelRequest) → (submit_release r).submitted ≡ true)
      → let sm' = start_release submit_release sm in
        (sm'.state ≡ SmState.releasing)
        × (sm'.disconnect_requested ≡ sm.disconnect_requested)
        × (sm'.connect_requested ≡ sm.connect_requested)
        × (sm'.next_step_deadline_ms ≡ 0)
  unfolding start_release handle_release_submit_result alloc_pti
  release_fields sm sent =
      let sm' : SmCtx = record (alloc_pti sm) {
        state = SmState.releasing;
        procedure = SmProcedure.release_pdu;
        proc_step = SmProcStep.wait_release_complete;
        next_step_deadline_ms = 0;
      } in
      ground (arith, sent (build_release_request sm'))

  waits_keep :
      (sm : SmCtx) (now : ℕ)
      → sm.state ≡ SmState.releasing
      → sm.next_step_deadline_ms ≡ 0
      → let sm' = tick_releasing (tick_establishing sm now) now in
        (sm'.state ≡ SmState.releasing)
        × (sm'.disconnect_requested ≡ sm.disconnect_requested)
        × (sm'.connect_requested ≡ sm.connect_requested)
  unfolding tick_establishing tick_releasing
  waits_keep sm now s d = ground arith

  -- A release is asked for and sent: the tick of an active session goes to RELEASING.
  tick_releases :
      (sm : SmCtx) (now : ℕ)
      → sm.state ≡ SmState.active
      → sm.disconnect_requested ≡ true
      → sm.connect_requested ≡ false
      → ((r : RelRequest) → (submit_release r).submitted ≡ true)
      → (sm' : SmCtx) × (tick submit_establish submit_release 2 sm now true ≡ some sm')
        × (sm'.state ≡ SmState.releasing)
        × (sm'.disconnect_requested ≡ true)
        × (sm'.connect_requested ≡ false)
  unfolding tick tick_connect tick_disconnect
  tick_releases sm now s d c sent =
      let sent_sm : SmCtx = start_release submit_release sm in
      let f = release_fields sm sent in
      let w = waits_keep sent_sm now f.0 f.3 in
      (
        tick_releasing (tick_establishing sent_sm now) now,
        ground (arith, f),
        ground (arith, f, w),
        ground (arith, f, w),
        ground (arith, f, w),
      )

  -- The next tick gives up.
  tick_gives_up :
      (sm : SmCtx) (now : ℕ)
      → sm.state ≡ SmState.releasing
      → sm.disconnect_requested ≡ true
      → sm.connect_requested ≡ false
      → (sm' : SmCtx) × (tick submit_establish submit_release 2 sm now true ≡ some sm')
        × (sm'.state ≡ SmState.inactive)
        × (sm'.last_cause ≡ SmLastCause.disconnect_requested)
  unfolding tick tick_connect tick_disconnect tick_establishing tick_releasing enter_inactive
  tick_gives_up sm now s d c = (
    enter_inactive sm SmLastCause.disconnect_requested false true,
    ground arith,
    ground arith,
    ground arith,
  )

  -- The wait for the network's release command lasts one tick, not 16 s: a tick that sends the
  -- release request of an active session leaves `disconnect_requested` set, and the next one, at
  -- whatever time, makes the session inactive.
  pub release_wait_cut_short :
      (sm : SmCtx) (now later : ℕ)
      → sm.state ≡ SmState.active
      → sm.disconnect_requested ≡ true
      → sm.connect_requested ≡ false
      → ((r : RelRequest) → (submit_release r).submitted ≡ true)
      → (sm' : SmCtx) × (sm'' : SmCtx) × (tick submit_establish submit_release 2 sm now true
          ≡ some sm')
        × (sm'.state ≡ SmState.releasing)
        × (tick submit_establish submit_release 2 sm' later true ≡ some sm'')
        × (sm''.state ≡ SmState.inactive)
        × (sm''.last_cause ≡ SmLastCause.disconnect_requested)
  release_wait_cut_short sm now later s d c sent =
      let (sm', e, r, d', c') = tick_releases sm now s d c sent in
      let (sm'', e', i, l) = tick_gives_up sm' later r d' c' in (sm', sm'', e, r, e', i, l)
