-- ===== src/Session.antt =====
-- The state of a bedtime session (api/src/application/ports/SessionStatePort.ts). Times are numbers
-- of milliseconds, the emotional tone a number of hundredths, and an absent optional field is
-- `none`. Of `context` the values that the code writes are kept: counters and lists of identifiers.
pub mod Store
pub mod Lua
pub mod Agreement
pub mod Redis
use dreamweaver.Prelude.{ℕ, String, Option, none, some, List, Dict, or_else}
use dreamweaver.Goal.{Goal}
use dreamweaver.Thought.{SessionPhase}

pub data ActiveIntent : Type 0 where
  listen interrupt idle : ActiveIntent

pub data Value : Type 0 where
  number : ℕ → Value
  texts : List String → Value

-- `SessionStateSnapshot`: all but the history.
pub record Snapshot : Type 0 where
  pub session_id : String
  pub user_id : String
  pub phase : SessionPhase
  pub active_intent : ActiveIntent
  pub emotional_tone : ℕ
  pub active_goal : Option Goal
  pub active_goals : Option (List Goal)
  pub session_start_time : Option ℕ
  pub last_suggested_theme : Option String
  pub last_moment_timestamp : Option ℕ
  pub context : Dict Value
  pub updated_at : ℕ

pub record SessionState : Type 0 where
  pub snapshot : Snapshot
  pub open snapshot use *
  pub history : Option (List Snapshot)

-- `SessionStatePatch`: `none` is a key that the patch does not have; of an optional field,
-- `some none` is a key that is there with the value `undefined`.
pub record Patch : Type 0 where
  pub phase : Option SessionPhase
  pub active_intent : Option ActiveIntent
  pub emotional_tone : Option ℕ
  pub active_goal : Option (Option Goal)
  pub active_goals : Option (Option (List Goal))
  pub session_start_time : Option (Option ℕ)
  pub last_suggested_theme : Option (Option String)
  pub last_moment_timestamp : Option (Option ℕ)
  pub context : Option (Dict Value)

-- `{ ...current, ...partial }`
unfoldable pub merge : Snapshot → Patch → Snapshot
merge s p = record s {
  phase = or_else p.phase s.phase;
  active_intent = or_else p.active_intent s.active_intent;
  emotional_tone = or_else p.emotional_tone s.emotional_tone;
  active_goal = or_else p.active_goal s.active_goal;
  active_goals = or_else p.active_goals s.active_goals;
  session_start_time = or_else p.session_start_time s.session_start_time;
  last_suggested_theme = or_else p.last_suggested_theme s.last_suggested_theme;
  last_moment_timestamp = or_else p.last_moment_timestamp s.last_moment_timestamp;
  context = or_else p.context s.context;
}
