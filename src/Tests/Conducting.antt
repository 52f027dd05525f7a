-- ===== src/Tests/Conducting.antt =====
-- The conductor (api/src/domain/agents/BedtimeConductorAgent.ts) at concrete sessions.
use dreamweaver.Prelude.{
  String, Bool, truthy, is_some, utf16_length, ◌==◌, if◌then◌else◌, ℕ, zero, suc, ◌+◌, ◌*◌, ◌≤◌,
  Option, none, some, true, ◌&&◌, ◌||◌, List, [], ◌∷◌, ◌≡◌, ◌≢◌, refl, arith, length, lookup,
  insert, Dict, head_of, ltb,
}
use dreamweaver.Goal.{Goal, story_completed, child_asleep, active, create_new}
use dreamweaver.Thought.{idle, onboarding, asleep, transition}
use dreamweaver.Thought.Reach.{IsEarly}
use dreamweaver.Thought.Arbiter.{ThoughtStep}
use dreamweaver.Session.{ActiveIntent, Snapshot, SessionState}
use dreamweaver.Session.Store.{set, get, replace, stamp, trimmed, rollback}
use dreamweaver.Session.Lua.{rollback_script}
use dreamweaver.Resilience.{strategy, refined_type, map_error_to_failure_type}
use dreamweaver.Resilience.Policy.{calls_again}
use dreamweaver.Conductor.{
  get_or_init_state, commit, StoryBeat, set_goal, handle_story_beat, push_goal, none_if_empty,
}
use dreamweaver.Conductor.Stores.{in_memory, redis, in_memory-PortLaws, redis-PortLaws}
use dreamweaver.Conductor.Goals.Stack.{last_beat_pops}
use dreamweaver.Conductor.Cues.{start_session, handle_sleep_cue}
use dreamweaver.Conductor.Phases.{Call, begin_session, cue, answer, answer_all}
use dreamweaver.Conductor.Phases.Never.{cues_never_asleep}
use dreamweaver.Conductor.Undo.{set_goal_not_undone, set_goal_undone}
use dreamweaver.Conductor.Attempts.{
  Failure, Reply, thought, failed, answered, attempt_from, attempt_all, failure_type,
}
use dreamweaver.Conductor.Attempts.Bounds.{total, attempt_all_bounds}
use dreamweaver.Conductor.Attempts.Answers.{remedy, thought_is_answered}
use dreamweaver.Conductor.Turns.{counter, rejects, accepts, Turn, process_turn}
use dreamweaver.Conductor.Turns.Counts.{theme_after, turn_counts}
use dreamweaver.Conductor.Turns.Endings.{fails, ends_emergency, turn_emergency}

abbrev tale : Goal
tale = record {
  id = "g";
  type = story_completed;
  target_time = 60000;
  description = "Complete story within 1 minutes";
  status = active;
  progress = 0;
  created_at = 0;
  achieved_at = none;
}

abbrev state : SessionState
state = record {
  snapshot = record {
    session_id = "s";
    user_id = "u";
    phase = onboarding;
    active_intent = ActiveIntent.idle;
    emotional_tone = 50;
    active_goal = some tale;
    active_goals = some (tale ∷ []);
    session_start_time = some 1;
    last_suggested_theme = some "pirates";
    last_moment_timestamp = none;
    context = [];
    updated_at = 1;
  };
  history = none;
}

abbrev store : Dict SessionState
store = ("s", state) ∷ []

abbrev beat : ℕ → StoryBeat
beat index = record {
  context_session = some "s";
  payload_session = none;
  context_user = some "u";
  payload_user = none;
  beat_index = index;
  total_beats = 4;
}

last_beat_pops_example :
    (r : SessionState) × (redis.get "s" (handle_story_beat redis 5 (beat 3) store) ≡ some r)
    × (r.active_goals ≡ none_if_empty [])
    × (r.active_goal ≡ head_of [])
unfolding get_or_init_state lookup
last_beat_pops_example =
    last_beat_pops redis redis-PortLaws 5 (beat 3) store tale [] refl refl (omega arith)

set_goal_not_undone_example :
    lookup "s" (rollback 9 "s" 1 (set_goal in_memory 5 "h" "s" "u" child_asleep 10 store))
    ≡ some (record {
      snapshot = stamp 9 (push_goal (create_new "h" 5 child_asleep 10 none) state.snapshot);
      history = some (trimmed state);
    })
unfolding lookup
set_goal_not_undone_example =
    set_goal_not_undone 5 9 "h" "s" "u" child_asleep 10 store state (tale ∷ []) refl refl

set_goal_undone_example :
    rollback_script 1 (lookup "s" (set_goal redis 5 "h" "s" "u" child_asleep 10 store))
    ≡ some (record { snapshot = stamp 5 state.snapshot; history = some (trimmed state) })
unfolding lookup
set_goal_undone_example =
    set_goal_undone 5 "h" "s" "u" child_asleep 10 store state (tale ∷ []) refl refl

abbrev fresh : Snapshot
fresh = record {
  session_id = "s";
  user_id = "u";
  phase = idle;
  active_intent = ActiveIntent.idle;
  emotional_tone = 50;
  active_goal = none;
  active_goals = none;
  session_start_time = none;
  last_suggested_theme = none;
  last_moment_timestamp = none;
  context = [];
  updated_at = 1;
}

abbrev child : String
child = "0e37df36-f698-4f21-b8a1-6f1a4c2c1a11"

abbrev is_uuid : String → Bool
is_uuid id = utf16_length id == 36

abbrev message : String
message = "no, not pirates"

abbrev evening : List (ℕ × Call)
evening = (1, begin_session "s" "u") ∷ (2, cue true (some "s") (some "u")) ∷ []

-- The session after that evening.
abbrev begun : SessionState
begun = record {
  snapshot = record fresh { phase = onboarding; session_start_time = some 1 };
  history = some (fresh ∷ []);
}

evening_found : lookup "s" (answer_all is_uuid evening []) ≡ some begun
unfolding answer_all answer start_session handle_sleep_cue get_or_init_state commit set replace get
    lookup insert transition stamp
evening_found = refl

cues_never_asleep_example : IsEarly onboarding × (onboarding ≢ asleep)
cues_never_asleep_example = cues_never_asleep is_uuid evening "s" begun evening_found

abbrev story : ThoughtStep
story = record {
  goals_considered = [];
  conflicts_identified = none;
  trade_off_made = none;
  thought = "A calm tale";
  action = "SUGGEST";
  confidence = 90;
  parameters = some (("theme", "moon") ∷ ("reply", "How about the moon?") ∷ []);
}

abbrev timeout : Failure
timeout = record { name = "Error"; message = "timeout" }

timeout_again : calls_again (remedy timeout) ≡ true
unfolding remedy failure_type strategy refined_type map_error_to_failure_type
timeout_again = refl

abbrev breach : Failure
breach = record { name = "QualityGateError"; message = "UCR" }

-- The first call times out, and the next ones give `r`.
abbrev second : Reply → ℕ → Reply
second r zero = r
second r (suc zero) = failed timeout
second r (suc (suc n)) = r

abbrev down : ℕ → Reply
down n = failed timeout

attempt_all_bounds_example :
    ((attempt_all down).attempts ≤ 3)
    × ((attempt_all down).cost ≤ 10)
    × (length (attempt_all down).waits ≤ 2)
    × (total (attempt_all down).waits ≤ 25000)
    × (attempt_from down (3 + 4) 0 0 none ≡ attempt_all down)
attempt_all_bounds_example = attempt_all_bounds down 4

thought_is_answered_example :
    (last : Option Failure) × ((attempt_all (second (thought story))).ending ≡ answered story last)
    × ((attempt_all (second (thought story))).attempts ≡ 2)
thought_is_answered_example =
    thought_is_answered (second (thought story)) 1 story (omega arith)
      ((timeout, refl, timeout_again), tt) refl

turn_counts_example :
    let before = (get_or_init_state in_memory 7 "s" child store).state.snapshot in
    let last = before.last_suggested_theme in
    let asked = true && is_some (truthy last) in
    (turn : Turn in_memory.Store) × (process_turn in_memory is_uuid 7 "s" child true true message
        900
        (thought story)
        store
      ≡ some turn)
    × (s : SessionState) × (in_memory.get "s" turn.store ≡ some s)
    × (counter "interactions" s.snapshot ≡ counter "interactions" before + 1)
    × (counter "interventions" s.snapshot
        ≡ counter "interventions" before + (if asked && rejects message then 1 else 0))
    × (s.snapshot.last_suggested_theme
        ≡ theme_after
            (if asked && (rejects message || accepts message) then none else last)
            turn.ending)
unfolding utf16_length
turn_counts_example =
    turn_counts in_memory in_memory-PortLaws is_uuid 7 "s" child true true message 900
      (thought story) store refl

turn_emergency_example :
    let before = (get_or_init_state redis 7 "s" child store).state.snapshot in
    let asked = true && is_some (truthy before.last_suggested_theme) in
    let n = counter "interactions" before + 1 in
    let k = counter "interventions" before + (if asked && rejects message then 1 else 0) in
    ends_emergency
      (process_turn redis is_uuid 7 "s" child true true message 900 (thought story) store)
    ≡ (if is_uuid child
        then some
            ((true && ltb (3 * n) (10 * k)) || (fails (thought story) || (true && ltb 3000 900)))
        else none)
turn_emergency_example =
    turn_emergency redis is_uuid 7 "s" child true true message 900 (thought story) store
