-- ===== src/Conductor/Phases/Never.antt =====
-- No call of the conductor puts a session to sleep.
use dreamweaver.Prelude.{
  truthy, or_else, ◌&&◌, ℕ, String, Option, none, some, Bool, true, false, List, [], ◌∷◌, ◌≡◌, ◌≢◌,
  refl, inl, inr, arith, Dict, lookup, AllValues-insert, AllValues-lookup, Bool-cases,
}
use dreamweaver.Goal.{Goal, create_new, Rounded}
use dreamweaver.Thought.{asleep}
use dreamweaver.Thought.Reach.{IsEarly, transition-IsEarly, sent_start, sent_sleep}
use dreamweaver.Session.{Value, Snapshot, SessionState}
use dreamweaver.Session.Store
use dreamweaver.Session.Store.{replace}
use dreamweaver.Conductor.{
  Opened, get_or_init_state, push_goal, current_goal, advance_goals, beat_progress, beat_session,
  beat_user, beat_step, set_goal, handle_story_beat, is_active,
}
use dreamweaver.Conductor.Cues.{
  begin, begin_step, start_session, fall_asleep, cue_step, cue_for, handle_sleep_cue,
}
use dreamweaver.Conductor.Stores.{in_memory}
use dreamweaver.Thought.Arbiter.{ArbitrationContext}
use dreamweaver.Conductor.Sessions.{
  SessionConfig, begun_phase, context_of, finish, Surroundings, valid_config, valid_context,
  lead_session, conduct_story_session,
}
use dreamweaver.Conductor.Attempts.{
  Ending, answered, safe_mode, fallen_back, attempt_all, Reply, thought, failed,
}
use dreamweaver.Conductor.Turns.{
  Learned, learn, with_context, count_turn, suggestion, too_many_interventions, too_slow,
  assign_context, note_turn, suggest, conclude, take_turn, process_turn,
}
use dreamweaver.Conductor.Phases.{
  Call, goal, beat, begin_session, cue, turn, story, answer, answer_all,
}
use dreamweaver.Conductor.Phases.Opening.{
  IsAwake, AllAwake, IsOpenedAwake, opened-awake, commit-AllAwake,
}

beat_step-AllAwake :
    (now : ℕ) (id : String) (o : Opened (Dict SessionState)) (p : Rounded) (g : Option Goal)
    → IsOpenedAwake o
    → AllAwake (beat_step in_memory now id o p g)
unfolding advance_goals
beat_step-AllAwake now id o p none (h, k) = k
beat_step-AllAwake now id o p (some g) (h, k) = elim (Bool-cases (is_active g.status)) [
  | inl e ↦ rw e (commit-AllAwake now id o (advance_goals now p g o.state.snapshot) h k)
  | inr e ↦ rw e k
]

begin_step-AllAwake :
    (now : ℕ) (id : String) (o : Opened (Dict SessionState)) (t : Option ℕ)
    → IsOpenedAwake o
    → AllAwake (begin_step in_memory now id o t)
begin_step-AllAwake now id o none (h, k) =
    commit-AllAwake now id o (begin now o.state.snapshot)
      (transition-IsEarly o.state.phase sent_start h) k
begin_step-AllAwake now id o (some t) (h, k) = k

fall_asleep-IsEarly :
    (t : Option ℕ) (s : Snapshot) → IsEarly s.phase → IsEarly (fall_asleep t s).phase
fall_asleep-IsEarly none s h = h
fall_asleep-IsEarly (some t) s h = transition-IsEarly s.phase sent_sleep h

cue_step-AllAwake :
    (now : ℕ) (id user : String) (memory : Bool) (o : Opened (Dict SessionState))
    (theme : Option String)
    → IsOpenedAwake o
    → AllAwake (cue_step in_memory now id user memory o theme).0
cue_step-AllAwake now id user true o (some theme) (h, k) =
    commit-AllAwake now id o (fall_asleep o.state.session_start_time o.state.snapshot)
      (fall_asleep-IsEarly o.state.session_start_time o.state.snapshot h) k
cue_step-AllAwake now id user true o none (h, k) = k
cue_step-AllAwake now id user false o theme (h, k) = k

cue_for-AllAwake :
    (now : ℕ) (memory : Bool) (session user : Option String) (store : Dict SessionState)
    → AllAwake store
    → AllAwake (cue_for in_memory now memory session user store).0
cue_for-AllAwake now memory (some id) (some user) store k =
    cue_step-AllAwake now id user memory (get_or_init_state in_memory now id user store) _
      (opened-awake now id user store k)
cue_for-AllAwake now memory _ _ store k = k

suggest-AllAwake :
    (now : ℕ) (id user : String) (theme : Option String) (store : Dict SessionState)
    → AllAwake store
    → AllAwake (suggest in_memory now id user theme store)
suggest-AllAwake now id user none store k = k
suggest-AllAwake now id user (some theme) store k =
    let o = get_or_init_state in_memory now id user store in
    let (h, k') = opened-awake now id user store k in
    commit-AllAwake now id o (record (o.state.snapshot) { last_suggested_theme = some theme }) h k'

assign_context-AllAwake :
    (o : Option SessionState) (id : String) (context : Dict Value) (store : Dict SessionState)
    → ((s : SessionState) → o ≡ some s → IsAwake s)
    → AllAwake store
    → AllAwake (assign_context in_memory true o id context store)
assign_context-AllAwake none id context store h k = k
assign_context-AllAwake (some s) id context store h k =
    AllValues-insert IsAwake id (with_context context s) store (h s refl) k

note_turn-AllAwake :
    (now : ℕ) (id : String) (l : Learned) (o : Opened (Dict SessionState))
    → IsOpenedAwake o
    → AllAwake (note_turn in_memory now id l o)
unfolding note_turn count_turn Store.get
note_turn-AllAwake now id l o (h, k) =
    let s = count_turn l o.state.snapshot in
    let noted = assign_context in_memory true (lookup id o.store) id s.context o.store in
    commit-AllAwake now id (record o { store = noted }) s h
      (assign_context-AllAwake (lookup id o.store) id s.context o.store
        (λ t e. AllValues-lookup IsAwake id o.store k e) k)

conclude-AllAwake :
    (now : ℕ) (id user : String) (memory gate : Bool) (ms : ℕ) (l : Learned) (reply : Reply)
    (store : Dict SessionState)
    → AllAwake store
    → AllAwake (conclude in_memory now id user memory gate ms l reply store).store
conclude-AllAwake now id user memory gate ms l (failed f) store k = k
conclude-AllAwake now id user memory gate ms l (thought t) store k =
    elim (Bool-cases (too_slow gate ms)) [
      | inl e ↦ rw e k
      | inr e ↦ rw e (suggest-AllAwake now id user (suggestion t) store k)
    ]

take_turn-AllAwake :
    (now : ℕ) (id user : String) (memory gate : Bool) (message : String) (ms : ℕ) (reply : Reply)
    (store : Dict SessionState)
    → AllAwake store
    → AllAwake (take_turn in_memory now id user memory gate message ms reply store).store
unfolding take_turn
take_turn-AllAwake now id user memory gate message ms reply store k =
    let o = get_or_init_state in_memory now id user store in
    let before = o.state.snapshot in
    let l = learn memory user before.last_suggested_theme message in
    let noted = note_turn-AllAwake now id l o (opened-awake now id user store k) in
    elim (Bool-cases (too_many_interventions gate (count_turn l before))) [
      | inl e ↦ rw e noted
      | inr e ↦ rw e (conclude-AllAwake now id user memory gate ms l reply _ noted)
    ]

start_session-AllAwake :
    (now : ℕ) (id user : String) (store : Dict SessionState)
    → AllAwake store
    → AllAwake (start_session in_memory now id user store)
unfolding start_session
start_session-AllAwake now id user store k =
    begin_step-AllAwake now id (get_or_init_state in_memory now id user store) _
      (opened-awake now id user store k)

finish-AllAwake :
    (now : ℕ) (id user : String) (config : SessionConfig) (context : ArbitrationContext)
    (store : Dict SessionState) (attempts cost : ℕ) (ending : Ending)
    → AllAwake store
    → AllAwake (finish in_memory now id user config context store attempts cost ending).store
finish-AllAwake now id user config context store attempts cost (answered t last) k =
    suggest-AllAwake now id user (some config.theme) store k
finish-AllAwake now id user config context store attempts cost safe_mode k = k
finish-AllAwake now id user config context store attempts cost (fallen_back last) k = k

lead_session-AllAwake :
    (now : ℕ) (id user : String) (config : SessionConfig) (around : Surroundings)
    (reply : ℕ → Reply) (store : Dict SessionState)
    → AllAwake store
    → AllAwake (lead_session in_memory now id user config around reply store).store
unfolding lead_session
lead_session-AllAwake now id user config around reply store k =
    let state = (get_or_init_state in_memory now id user store).state in
    finish-AllAwake now id user config
      (context_of around (begun_phase state.session_start_time state.phase))
      (start_session in_memory now id user store) (attempt_all reply).attempts
      (attempt_all reply).cost (attempt_all reply).ending
      (start_session-AllAwake now id user store k)

answer-AllAwake :
    (is_uuid : String → Bool) (now : ℕ) (c : Call) (store : Dict SessionState)
    → AllAwake store
    → AllAwake (answer is_uuid now c store)
unfolding answer set_goal handle_story_beat start_session handle_sleep_cue push_goal
answer-AllAwake is_uuid now (goal goal_id id user type minutes) store k =
    let o = get_or_init_state in_memory now id user store in
    let (h, k') = opened-awake now id user store k in
    commit-AllAwake now id o (push_goal (create_new goal_id now type minutes none) o.state.snapshot)
      h k'
answer-AllAwake is_uuid now (beat e) store k =
    let o = get_or_init_state in_memory now (beat_session e) (beat_user e) store in
    beat_step-AllAwake now (beat_session e) o (beat_progress e.beat_index e.total_beats)
      (current_goal o.state.snapshot) (opened-awake now (beat_session e) (beat_user e) store k)
answer-AllAwake is_uuid now (begin_session id user) store k =
    start_session-AllAwake now id user store k
answer-AllAwake is_uuid now (cue memory session user) store k =
    cue_for-AllAwake now memory (truthy session) (truthy user) store k
answer-AllAwake is_uuid now (turn id user memory gate message ms reply) store k =
    elim (Bool-cases (is_uuid user)) [
      | inl e ↦
          unfold process_turn in
          rw e (take_turn-AllAwake now id user memory gate message ms reply store k)
      | inr e ↦ unfold process_turn in rw e k
    ]
answer-AllAwake is_uuid now (story id user config around reply) store k =
    let valid = valid_config config && valid_context is_uuid user around.current_mood in
    elim (Bool-cases valid) [
      | inl e ↦
          unfold conduct_story_session in
          rw e (
            lead_session-AllAwake now id (or_else (truthy user) "anon") config around reply store k)
      | inr e ↦ unfold conduct_story_session in rw e k
    ]

answer_all-AllAwake :
    (is_uuid : String → Bool) (cs : List (ℕ × Call)) (store : Dict SessionState)
    → AllAwake store
    → AllAwake (answer_all is_uuid cs store)
unfolding answer_all
answer_all-AllAwake is_uuid [] store k = k
answer_all-AllAwake is_uuid ((now, c) ∷ cs) store k =
    answer_all-AllAwake is_uuid cs (answer is_uuid now c store)
      (answer-AllAwake is_uuid now c store k)

-- From an empty volatile store on, whatever calls the conductor gets, valid or not, story sessions, turns and
-- sleep cues among them, every session in the store stays in the first two phases, and so none
-- is ever asleep.
pub cues_never_asleep :
    (is_uuid : String → Bool) (cs : List (ℕ × Call)) (id : String) (s : SessionState)
    → lookup id (answer_all is_uuid cs []) ≡ some s
    → IsEarly s.phase × (s.phase ≢ asleep)
cues_never_asleep is_uuid cs id s found =
    let early =
      AllValues-lookup IsAwake id (answer_all is_uuid cs []) (answer_all-AllAwake is_uuid cs [] tt)
        found in
    (early, ground arith)
