-- ===== src/Conductor/Cues.antt =====
-- The start of a session and the sleep cue (`conductStorySession`, its first steps, and
-- `handleSleepCueDetected` of BedtimeConductorAgent.ts). What is reported to the agent's memory is a
-- list of outcomes.
use dreamweaver.Prelude.{truthy, ℕ, String, Option, none, some, Bool, true, false, List, [], ◌∷◌}
use dreamweaver.Thought.{start, sleep_detected, transition}
use dreamweaver.Session.{Snapshot}
use dreamweaver.Conductor.{SessionPort, Opened, get_or_init_state, commit}

pub data Sentiment : Type 0 where
  positive negative : Sentiment

-- `trackOutcome(theme, sentiment, { userId })`
pub record Outcome : Type 0 where
  pub theme : String
  pub sentiment : Sentiment
  pub user_id : String

abbrev pub begin : ℕ → Snapshot → Snapshot
begin now s = record s { session_start_time = some now; phase = transition s.phase start }

-- `state.phase = transition(...)` if the session has begun, and the theme is cleared.
abbrev pub fall_asleep : Option ℕ → Snapshot → Snapshot
fall_asleep none s = record s { last_suggested_theme = none }
fall_asleep (some _) s = record s {
  phase = transition s.phase sleep_detected;
  last_suggested_theme = none;
}

abbrev pub credit : String → String → List Outcome
credit theme user =
    record { theme = theme; sentiment = positive; user_id = user }
    ∷ record { theme = theme; sentiment = positive; user_id = user }
    ∷ []

module _ (port : SessionPort) where
  abbrev pub begin_step : ℕ → String → Opened port.Store → Option ℕ → port.Store
  begin_step now id opened none = commit port now id opened (begin now opened.state.snapshot)
  begin_step now id opened (some _) = opened.store

  unfoldable pub start_session : ℕ → String → String → port.Store → port.Store
  unfolding get_or_init_state commit
  start_session now id user store =
      let opened = get_or_init_state port now id user store in
      begin_step now id opened opened.state.session_start_time

  abbrev pub cue_step :
      ℕ → String → String → Bool → Opened port.Store → Option String → port.Store × List Outcome
  cue_step now id user true opened (some theme) = (
    commit port now id opened (fall_asleep opened.state.session_start_time opened.state.snapshot),
    credit theme user,
  )
  cue_step now id user true opened none = (opened.store, [])
  cue_step now id user false opened _ = (opened.store, [])

  abbrev pub cue_for :
      ℕ → Bool → Option String → Option String → port.Store → port.Store × List Outcome
  cue_for now memory (some id) (some user) store =
      let opened = get_or_init_state port now id user store in
      cue_step now id user memory opened (truthy opened.state.last_suggested_theme)
  cue_for now memory _ _ store = (store, [])

  -- The session and the user of `payload.context`; `memory` says whether the agent has one.
  unfoldable pub handle_sleep_cue :
      ℕ → Bool → Option String → Option String → port.Store → port.Store × List Outcome
  unfolding get_or_init_state commit
  handle_sleep_cue now memory session user store =
      cue_for now memory (truthy session) (truthy user) store
