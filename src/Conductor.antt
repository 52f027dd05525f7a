-- ===== src/Conductor.antt =====
-- The session handling of the conductor (api/src/domain/agents/BedtimeConductorAgent.ts) over a
-- session store. `now` is the time that the clock gives during the call.
--
-- A state that the volatile store returns is the stored object itself, so that an assignment to it
-- changes the store before `set` is called. A state that comes from Redis is a copy. A store says
-- which of the two it is by `shares`, and `assign` is an assignment to a state that was read.
pub mod Stores
pub mod Goals
pub mod Cues
pub mod Phases
pub mod Undo
pub mod Attempts
pub mod Turns
pub mod Suggestions
pub mod Sessions
use dreamweaver.Prelude.{
  truthy, either, ℕ, zero, suc, ◌+◌, ◌*◌, ◌/◌, String, Option, none, some, Bool, true, false, ◌&&◌,
  List, [], ◌∷◌, ltb, leb, ◌==◌, str_eq, take, head_of, or_else, if◌then◌else◌, ◌≡◌,
}
use dreamweaver.Goal.{
  Goal, GoalType, GoalStatus, active, achieved, abandoned, Rounded, pos, infinite, create_new,
  update_progress, mark_achieved,
}
use dreamweaver.Thought.{SessionPhase, Signal, start, sleep_detected, transition}
use dreamweaver.Session.{ActiveIntent, Snapshot, SessionState}
use dreamweaver.Session.Store.{stamp}

-- The operations of `SessionStatePort` that the conductor calls.
pub record SessionPort : Type 1 where
  pub Store : Type 0
  pub get : String → Store → Option SessionState
  pub set : ℕ → String → SessionState → Store → Store
  -- The object under a key is replaced with no step recorded.
  pub put : String → SessionState → Store → Store
  pub shares : Bool

-- What the conductor relies on: a read after a write, and that the other sessions are left alone.
pub record PortLaws (port : SessionPort) : Type 0 where
  pub get-set :
      (now : ℕ) (id : String) (state : SessionState) (store : port.Store)
      → (r : SessionState) × (port.get id (port.set now id state store) ≡ some r)
        × (r.snapshot ≡ stamp now state.snapshot)
  pub get-set_other :
      (now : ℕ) (i j : String) (state : SessionState) (store : port.Store)
      → str_eq i j ≡ false
      → port.get j (port.set now i state store) ≡ port.get j store
  pub get-put_other :
      (i j : String) (state : SessionState) (store : port.Store)
      → str_eq i j ≡ false
      → port.get j (port.put i state store) ≡ port.get j store

abbrev fresh_state : ℕ → String → String → SessionState
fresh_state now session_id user_id = record {
  snapshot = record {
    session_id = session_id;
    user_id = user_id;
    phase = SessionPhase.idle;
    active_intent = ActiveIntent.idle;
    emotional_tone = 50;
    active_goal = none;
    active_goals = none;
    session_start_time = none;
    last_suggested_theme = none;
    last_moment_timestamp = none;
    context = [];
    updated_at = now;
  };
  history = none;
}

-- What `_getOrInitState` returns: the state, and whether it is the object in the store.
pub record Opened (S : Type 0) : Type 0 where
  pub store : S
  pub state : SessionState
  pub shared : Bool

abbrev with_goals : Option (List Goal) → SessionState → SessionState
with_goals goals s = record s { snapshot = record (s.snapshot) { active_goals = goals } }

module _ (port : SessionPort) where
  open port use {Store, get, set, put, shares}

  -- `state.field = value`, on a state that was read, `shared` or not.
  abbrev pub assign : Bool → String → SessionState → Store → Store
  assign true id state store = put id state store
  assign false id state store = store

  abbrev migrate :
      Option (List Goal) → Option Goal → ℕ → String → SessionState → Store → Opened Store
  migrate none (some goal) now id state store =
      let state' = with_goals (some (goal ∷ [])) state in
      record {
        store = set now id state' (assign shares id state' store);
        state = state';
        shared = false;
      }
  migrate none none now id state store = record { store = store; state = state; shared = shares }
  migrate (some goals) _ now id state store = record {
    store = store;
    state = state;
    shared = shares;
  }

  abbrev open_found : Option SessionState → ℕ → String → String → Store → Opened Store
  open_found none now id user store =
      let state = fresh_state now id user in
      record { store = set now id state store; state = state; shared = false }
  open_found (some state) now id user store =
      migrate state.active_goals state.active_goal now id state store

  -- `_getOrInitState`
  unfoldable pub get_or_init_state : ℕ → String → String → Store → Opened Store
  get_or_init_state now id user store = open_found (get id store) now id user store

  -- Assignments to the state that was read, and `set` with it.
  unfoldable pub commit : ℕ → String → Opened Store → Snapshot → Store
  commit now id opened snapshot =
      let state : SessionState = record { snapshot = snapshot; history = opened.state.history } in
      set now id state (assign opened.shared id state opened.store)

-- `activeGoals || (activeGoal ? [activeGoal] : [])`
abbrev pub existing_goals : Option (List Goal) → Option Goal → List Goal
existing_goals (some goals) _ = goals
existing_goals none (some goal) = goal ∷ []
existing_goals none none = []

-- The assignments of `setGoal`.
unfoldable pub push_goal : Goal → Snapshot → Snapshot
push_goal goal s =
    let goals = take 5 (goal ∷ existing_goals s.active_goals s.active_goal) in
    record s { active_goals = some goals; active_goal = head_of goals }

-- `activeGoals?.[0] ?? activeGoal`
unfoldable pub current_goal : Snapshot → Option Goal
current_goal s = elim (head_of (or_else s.active_goals [])) [
  | none ↦ s.active_goal
  | some g ↦ some g
]

-- `Math.round(((beatIndex + 1) / totalBeats) * 100)`, in exact arithmetic.
unfoldable pub beat_progress : ℕ → ℕ → Rounded
beat_progress beat_index total_beats =
    if total_beats == 0
    then infinite
    else pos ((200 * (beat_index + 1) + total_beats) / (2 * total_beats))

-- `progress >= 100`
abbrev pub is_complete : Rounded → Bool
is_complete (pos n) = leb 100 n
is_complete (Rounded.negsuc n) = false
is_complete infinite = true

abbrev pub replace_head : Goal → List Goal → List Goal
replace_head goal [] = goal ∷ []
replace_head goal (g ∷ gs) = goal ∷ gs

abbrev pub tail_of : List Goal → List Goal
tail_of [] = []
tail_of (g ∷ gs) = gs

abbrev pub none_if_empty : List Goal → Option (List Goal)
none_if_empty [] = none
none_if_empty (g ∷ gs) = some (g ∷ gs)

abbrev is_active : GoalStatus → Bool
is_active active = true
is_active achieved = false
is_active abandoned = false

-- The goal after a beat.
unfoldable pub advance_goal : ℕ → Rounded → Goal → Goal
advance_goal now progress goal =
    let updated = update_progress progress goal in
    if is_complete progress then mark_achieved now updated else updated

-- The assignments of `handleStoryBeat`.
unfoldable pub advance_goals : ℕ → Rounded → Goal → Snapshot → Snapshot
unfolding advance_goal
advance_goals now progress goal s =
    let updated = replace_head (advance_goal now progress goal) (or_else s.active_goals []) in
    let stack = if is_complete progress then tail_of updated else updated in
    record s { active_goals = none_if_empty stack; active_goal = head_of stack }

pub record StoryBeat : Type 0 where
  -- `payload.context?.sessionId` and `payload.sessionId`, and so for the user.
  pub context_session : Option String
  pub payload_session : Option String
  pub context_user : Option String
  pub payload_user : Option String
  pub beat_index : ℕ
  pub total_beats : ℕ

abbrev pub beat_session : StoryBeat → String
beat_session e = or_else (either e.context_session (truthy e.payload_session)) "session_default"

abbrev pub beat_user : StoryBeat → String
beat_user e = or_else (either e.context_user (truthy e.payload_user)) "anon"

module _ (port : SessionPort) where
  -- `setGoal`, for a session and a user; `goal_id` is the identifier that the goal is given.
  unfoldable pub set_goal : ℕ → String → String → String → GoalType → ℕ → port.Store → port.Store
  unfolding get_or_init_state commit push_goal
  set_goal now goal_id id user type minutes store =
      let opened = get_or_init_state port now id user store in
      commit port now id opened
        (push_goal (create_new goal_id now type minutes none) opened.state.snapshot)

  abbrev beat_step : ℕ → String → Opened port.Store → Rounded → Option Goal → port.Store
  beat_step now id opened progress none = opened.store
  beat_step now id opened progress (some goal) =
      if is_active goal.status
      then commit port now id opened (advance_goals now progress goal opened.state.snapshot)
      else opened.store

  unfoldable pub handle_story_beat : ℕ → StoryBeat → port.Store → port.Store
  unfolding get_or_init_state commit current_goal beat_progress advance_goals
  handle_story_beat now e store =
      let id = beat_session e in
      let opened = get_or_init_state port now id (beat_user e) store in
      beat_step now id opened (beat_progress e.beat_index e.total_beats)
        (current_goal opened.state.snapshot)
