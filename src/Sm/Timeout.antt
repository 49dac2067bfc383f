-- ===== src/Sm/Timeout.antt =====
-- How the establishment of a PDU session ends with no answer.
use virtuallte.Common.{ℕ, ◌+◌, ◌^◌, ◌≤◌, ◌<◌, ◌≡◌, ◌≢◌, false, List, [], ◌∷◌, none, some}
use virtuallte.Sm.State.{SmState, SmLastCause, SmCtx}
use virtuallte.Sm.Procedure.{build_establish_request}
use virtuallte.Sm.{tick_establishing, retransmission}
use virtuallte.Sm.Invariant.{IsSound}

-- The ticks come 16 s apart at least, the first of them not before `due`.
abbrev pub Spaced : ℕ → List ℕ → Type 0
Spaced due [] = Unit {0}
Spaced due (t ∷ ts) = (due ≤ t) × (t < 2 ^ 63) × Spaced (t + 16000) ts

pub record Waiting (due : ℕ) (sm : SmCtx) : Type 0 where
  pub valid : IsSound sm
  pub running : sm.state ≡ SmState.establishing
  pub armed : sm.next_step_deadline_ms ≡ due
  pub later : due ≢ 0

-- What is left of an establishment that nobody answered.
pub record Abandoned (sm : SmCtx) : Type 0 where
  pub state : sm.state ≡ SmState.inactive
  pub last_cause : sm.last_cause ≡ SmLastCause.establish_rejected
  pub requested : sm.connect_requested ≡ false
  pub pti : sm.pti ≡ 0
  pub retransmissions : sm.est_retx_count ≡ 0

-- A tick that only arms the timer.
pub record Armed (due : ℕ) (sm sm' : SmCtx) : Type 0 where
  pub due_at : sm'.next_step_deadline_ms ≡ due
  pub same_state : sm'.state ≡ sm.state
  pub same_pti : sm'.pti ≡ sm.pti
  pub same_requested : sm'.connect_requested ≡ sm.connect_requested
  pub same_count : sm'.est_retx_count ≡ sm.est_retx_count

-- A tick that retransmits: the establishment goes on under its transaction identity.
pub record Retransmitted (due : ℕ) (sm sm' : SmCtx) : Type 0 where
  pub counted : sm'.est_retx_count ≡ sm.est_retx_count + 1
  pub due_at : sm'.next_step_deadline_ms ≡ due
  pub still : sm'.state ≡ SmState.establishing
  pub same_pti : sm'.pti ≡ sm.pti
  pub same_requested : sm'.connect_requested ≡ sm.connect_requested

-- What the ticks do one after another: each but the last submits the request of the establishment
-- again, and the last submits nothing and gives up.
abbrev pub Retransmits : List ℕ → SmCtx → Type 0
Retransmits [] sm = ⊥
Retransmits (t ∷ []) sm = (retransmission sm t ≡ none) × Abandoned (tick_establishing sm t)
Retransmits (t ∷ u ∷ ts) sm =
    (retransmission sm t ≡ some (build_establish_request sm))
    × Retransmitted (t + 16000) sm (tick_establishing sm t)
    × Retransmits (u ∷ ts) (tick_establishing sm t)
