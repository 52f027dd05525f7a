-- ===== src/Conductor/Sessions.antt =====
-- A story session from start to end (`conductStorySession` of BedtimeConductorAgent.ts): the start of
-- the session, the attempts, the rules on the thought, and the theme that is remembered. The input is
-- checked first (domain/schemas/AgentSchemas.ts), where the test for a UUID of the schema library is a
-- parameter. The prompt, what is looked up for it, the agenda that is only logged, and the traces are
-- left out.
pub mod Forms
pub mod Outcomes
use dreamweaver.Prelude.{
  ℕ, String, Option, none, some, Bool, true, false, not, ◌&&◌, ◌||◌, leb, List, [], ◌∷◌, str_eq,
  truthy, or_else, if◌then◌else◌, ◌==◌,
}
use dreamweaver.Thought.{SessionPhase, start, transition}
use dreamweaver.Thought.Arbiter.{
  ThoughtStep, ArbitrationContext, arbitrate, parameter, standard_goals,
}
use dreamweaver.Conductor.{SessionPort, Opened, get_or_init_state}
use dreamweaver.Conductor.Cues.{start_session}
use dreamweaver.Conductor.Attempts.{
  Reply, Ending, answered, safe_mode, fallen_back, Failure, attempt_all,
}
use dreamweaver.Conductor.Turns.{suggest}

pub record SessionConfig : Type 0 where
  pub theme : String
  pub duration : Option String
  pub child_age : Option ℕ

-- What the session takes from its surroundings and its child.
pub record Surroundings : Type 0 where
  pub time_of_day : Option String
  pub child_age : Option ℕ
  pub current_mood : Option String

abbrev or_five : Option ℕ → ℕ
or_five none = 5
or_five (some n) = if n == 0 then 5 else n

-- The phase of the state after the first steps.
abbrev pub begun_phase : Option ℕ → SessionPhase → SessionPhase
begun_phase none phase = transition phase start
begun_phase (some t) phase = phase

unfoldable pub context_of : Surroundings → SessionPhase → ArbitrationContext
context_of s phase = record {
  time_of_day = or_else (truthy s.time_of_day) "Unknown";
  child_age = or_five s.child_age;
  child_mood = or_else (truthy s.current_mood) "calm";
  active_goals = standard_goals;
  current_phase = phase;
}

abbrev pub is_duration : String → Bool
is_duration d = str_eq d "short" || (str_eq d "medium" || str_eq d "long")

-- `SessionConfigSchema.parse` does not throw.
unfoldable pub valid_config : SessionConfig → Bool
valid_config config =
    not (str_eq config.theme "")
    && (elim config.duration as (λ _. Bool) [ none ↦ true | some d ↦ is_duration d ]
        && elim config.child_age as (λ _. Bool) [ none ↦ true | some age ↦ leb age 18 ])

abbrev pub is_mood : String → Bool
is_mood m = str_eq m "energetic" || (str_eq m "calm" || (str_eq m "tired" || str_eq m "fussy"))

-- `AgentContextSchema.parse` does not throw, for a user and a mood.
unfoldable pub valid_context : (String → Bool) → Option String → Option String → Bool
valid_context is_uuid user mood =
    elim user as (λ _. Bool) [ none ↦ true | some u ↦ is_uuid u ]
    && elim mood as (λ _. Bool) [ none ↦ true | some m ↦ is_mood m ]

abbrev choose : Option String → Option String → Option String
choose given none = given
choose given (some d) = if is_duration d then some d else given

-- The duration of the refined request.
unfoldable pub refined_duration : Option String → ThoughtStep → Option String
refined_duration given t = choose given (parameter "duration" t)

pub record Session (S : Type 0) : Type 0 where
  pub store : S
  pub theme : String
  pub duration : Option String
  -- The thought of the model is the one that the rules leave.
  pub ending : Ending
  pub attempts : ℕ
  pub cost : ℕ

module _ (port : SessionPort) where
  abbrev pub finish :
      ℕ
      → String
      → String
      → SessionConfig
      → ArbitrationContext
      → port.Store
      → ℕ
      → ℕ
      → Ending
      → Session port.Store
  finish now id user config context store attempts cost (answered t last) =
      let decided = arbitrate t context in
      record {
        store = suggest port now id user (some config.theme) store;
        theme = config.theme;
        duration = refined_duration config.duration decided;
        ending = answered decided last;
        attempts = attempts;
        cost = cost;
      }
  finish now id user config context store attempts cost safe_mode = record {
    store = store;
    theme = config.theme;
    duration = config.duration;
    ending = safe_mode;
    attempts = attempts;
    cost = cost;
  }
  finish now id user config context store attempts cost (fallen_back last) = record {
    store = store;
    theme = config.theme;
    duration = config.duration;
    ending = fallen_back last;
    attempts = attempts;
    cost = cost;
  }

  -- The session for a configuration and a context that were checked.
  unfoldable pub lead_session :
      ℕ
      → String
      → String
      → SessionConfig
      → Surroundings
      → (ℕ → Reply)
      → port.Store
      → Session port.Store
  unfolding get_or_init_state start_session attempt_all arbitrate context_of refined_duration
  lead_session now id user config surroundings reply store =
      let state = (get_or_init_state port now id user store).state in
      let phase = begun_phase state.session_start_time state.phase in
      let conducted = attempt_all reply in
      finish now id user config (context_of surroundings phase)
        (start_session port now id user store) conducted.attempts conducted.cost conducted.ending

  -- `conductStorySession`; `none` is the exception of the checks, before anything is done. The
  -- session `id` is the one of the context, or a new one.
  unfoldable pub conduct_story_session :
      (String → Bool)
      → ℕ
      → String
      → Option String
      → SessionConfig
      → Surroundings
      → (ℕ → Reply)
      → port.Store
      → Option (Session port.Store)
  unfolding valid_config valid_context lead_session
  conduct_story_session is_uuid now id user config surroundings reply store =
      if valid_config config && valid_context is_uuid user surroundings.current_mood
      then some (lead_session now id (or_else (truthy user) "anon") config surroundings reply store)
      else none
