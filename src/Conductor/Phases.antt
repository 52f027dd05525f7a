-- ===== src/Conductor/Phases.antt =====
-- How far a session gets whose store is written by the conductor alone.
pub mod Opening
pub mod Never
use dreamweaver.Prelude.{
  truthy, ℕ, String, Option, none, some, Bool, true, false, List, [], ◌∷◌, ◌≡◌, ◌≢◌, refl, inl, inr,
  arith, Dict, lookup, AllValues, AllValues-insert, AllValues-lookup, Bool-cases,
}
use dreamweaver.Goal.{Goal, GoalType, create_new, Rounded}
use dreamweaver.Thought.{asleep}
use dreamweaver.Thought.Reach.{IsEarly, transition-IsEarly, sent_start, sent_sleep}
use dreamweaver.Session.{Value, Snapshot, SessionState}
use dreamweaver.Session.Store
use dreamweaver.Session.Store.{replace}
use dreamweaver.Conductor.{
  Opened, assign, fresh_state, migrate, open_found, get_or_init_state, commit, push_goal,
  current_goal, advance_goals, beat_progress, StoryBeat, beat_session, beat_user, beat_step,
  set_goal, handle_story_beat, is_active,
}
use dreamweaver.Conductor.Cues.{
  begin, begin_step, start_session, fall_asleep, cue_step, cue_for, handle_sleep_cue,
}
use dreamweaver.Conductor.Stores.{in_memory}
use dreamweaver.Conductor.Attempts.{Reply, thought, failed}
use dreamweaver.Conductor.Turns.{
  Learned, learn, with_context, count_turn, suggestion, too_many_interventions, too_slow,
  assign_context, note_turn, suggest, conclude, Turn, process_turn,
}
use dreamweaver.Conductor.Sessions.{SessionConfig, Surroundings, Session, conduct_story_session}

-- The calls that the conductor gets.
pub data Call : Type 0 where
  goal : (goal_id id user : String) (type : GoalType) (minutes : ℕ) → Call
  beat : StoryBeat → Call
  begin_session : (id user : String) → Call
  cue : (memory : Bool) (session user : Option String) → Call
  turn : (id user : String) (memory gate : Bool) (message : String) (ms : ℕ) → Reply → Call
  story : (id : String) (user : Option String) → SessionConfig → Surroundings → (ℕ → Reply) → Call

abbrev pub after_turn : {S : Type 0} → S → Option (Turn S) → S
after_turn store none = store
after_turn store (some done) = done.store

abbrev pub after_story : {S : Type 0} → S → Option (Session S) → S
after_story store none = store
after_story store (some done) = done.store

-- The store after a call at the time `now`; a call that throws leaves it as it is.
unfoldable pub answer : (String → Bool) → ℕ → Call → Dict SessionState → Dict SessionState
answer is_uuid now (goal goal_id id user type minutes) store =
    set_goal in_memory now goal_id id user type minutes store
answer is_uuid now (beat e) store = handle_story_beat in_memory now e store
answer is_uuid now (begin_session id user) store = start_session in_memory now id user store
answer is_uuid now (cue memory session user) store =
    (handle_sleep_cue in_memory now memory session user store).0
answer is_uuid now (turn id user memory gate message ms reply) store =
    after_turn store (process_turn in_memory is_uuid now id user memory gate message ms reply store)
answer is_uuid now (story id user config around reply) store =
    after_story store
      (conduct_story_session in_memory is_uuid now id user config around reply store)

unfoldable pub answer_all :
    (String → Bool) → List (ℕ × Call) → Dict SessionState → Dict SessionState
answer_all is_uuid [] store = store
answer_all is_uuid ((now, c) ∷ cs) store = answer_all is_uuid cs (answer is_uuid now c store)
