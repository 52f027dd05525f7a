-- ===== src/Conductor/Undo.antt =====
-- Whether a step back undoes what the conductor wrote (`setGoal` of BedtimeConductorAgent.ts, with
-- `rollback` of InMemorySessionState.ts and of RedisSessionState.ts).
use dreamweaver.Prelude.{
  ℕ, String, none, some, List, ◌≡◌, refl, ◌∙◌, ap, lookup, insert, lookup-insert_self, Dict, [],
  ◌∷◌, ◌++◌, true, false,
}
use dreamweaver.Goal.{Goal, GoalType, create_new}
use dreamweaver.Session.{SessionState}
use dreamweaver.Session.Store
use dreamweaver.Session.Store.{stamp, rollback, trimmed, replace, recorded}
use dreamweaver.Session.Store.TimeTravel.{rollback-set}
use dreamweaver.Session.Lua.{rollback_script}
use dreamweaver.Session.Agreement.{update_script-replace, rollback_script-restored}
use dreamweaver.Conductor.{get_or_init_state, commit, push_goal, set_goal}
use dreamweaver.Conductor.Stores.{in_memory, redis}

-- The state that `setGoal` writes over `s`.
abbrev pub with_goal : Goal → SessionState → SessionState
with_goal goal s = record { snapshot = push_goal goal s.snapshot; history = s.history }

open_memory :
    (now : ℕ) (id user : String) (store : Dict SessionState) (s : SessionState) (gs : List Goal)
    → lookup id store ≡ some s
    → s.active_goals ≡ some gs
    → get_or_init_state in_memory now id user store
      ≡ record { store = store; state = s; shared = true }
unfolding get_or_init_state Store.get
open_memory now id user store s gs found goals = rw found (rw goals)

set_goal-memory :
    (now : ℕ) (goal_id id user : String) (type : GoalType) (minutes : ℕ) (store : Dict SessionState)
    (s : SessionState) (gs : List Goal)
    → lookup id store ≡ some s
    → s.active_goals ≡ some gs
    → let state = with_goal (create_new goal_id now type minutes none) s in
      set_goal in_memory now goal_id id user type minutes store
      ≡ Store.set now id state (insert id state store)
unfolding set_goal commit
set_goal-memory now goal_id id user type minutes store s gs found goals =
    rw (open_memory now id user store s gs found goals)

-- In the volatile store one step back does not undo `setGoal`: for a session that has a stack of
-- goals, the snapshot that is restored has the new goal already.
pub set_goal_not_undone :
    (now later : ℕ) (goal_id id user : String) (type : GoalType) (minutes : ℕ)
    (store : Dict SessionState) (s : SessionState) (gs : List Goal)
    → lookup id store ≡ some s
    → s.active_goals ≡ some gs
    → lookup id (rollback later id 1 (set_goal in_memory now goal_id id user type minutes store))
      ≡ some (record {
        snapshot = stamp later (push_goal (create_new goal_id now type minutes none) s.snapshot);
        history = some (trimmed s);
      })
unfolding trimmed
set_goal_not_undone now later goal_id id user type minutes store s gs found goals =
    let state : SessionState = with_goal (create_new goal_id now type minutes none) s in
    rw (set_goal-memory now goal_id id user type minutes store s gs found goals) (
      rollback-set now later id state (insert id state store) state
        (lookup-insert_self id state store))

open_redis :
    (now : ℕ) (id user : String) (store : Dict SessionState) (s : SessionState) (gs : List Goal)
    → lookup id store ≡ some s
    → s.active_goals ≡ some gs
    → get_or_init_state redis now id user store
      ≡ record { store = store; state = s; shared = false }
unfolding get_or_init_state
open_redis now id user store s gs found goals = rw found (rw goals)

set_goal-redis :
    (now : ℕ) (goal_id id user : String) (type : GoalType) (minutes : ℕ) (store : Dict SessionState)
    (s : SessionState) (gs : List Goal)
    → lookup id store ≡ some s
    → s.active_goals ≡ some gs
    → let state = with_goal (create_new goal_id now type minutes none) s in
      lookup id (set_goal redis now goal_id id user type minutes store)
      ≡ some (replace now (some s) state)
unfolding set_goal commit
set_goal-redis now goal_id id user type minutes store s gs found goals =
    let state : SessionState = with_goal (create_new goal_id now type minutes none) s in
    rw (open_redis now id user store s gs found goals) (
      lookup-insert_self id _ store
      ∙ rw found (ap some (update_script-replace now (some s) state (λ e. absurd (cc)))))

replace-history :
    (now : ℕ) (s state : SessionState)
    → (replace now (some s) state).history ≡ some (trimmed s ++ s.snapshot ∷ [])
unfolding replace
replace-history now s state = refl

replace-updated_at :
    (now : ℕ) (s state : SessionState) → (replace now (some s) state).updated_at ≡ now
unfolding replace
replace-updated_at now s state = refl

-- In Redis one step back undoes `setGoal`: for a session that has a stack of goals, the script
-- restores the session as it was, but for the time stamp and the oldest step of a full history.
pub set_goal_undone :
    (now : ℕ) (goal_id id user : String) (type : GoalType) (minutes : ℕ) (store : Dict SessionState)
    (s : SessionState) (gs : List Goal)
    → lookup id store ≡ some s
    → s.active_goals ≡ some gs
    → rollback_script 1 (lookup id (set_goal redis now goal_id id user type minutes store))
      ≡ some (record { snapshot = stamp now s.snapshot; history = some (trimmed s) })
set_goal_undone now goal_id id user type minutes store s gs found goals =
    let state : SessionState = with_goal (create_new goal_id now type minutes none) s in
    rw (set_goal-redis now goal_id id user type minutes store s gs found goals) (
      (rollback_script-restored now (replace now (some s) state) (trimmed s) [] s.snapshot
        (replace-history now s state)).0
      ∙ rw (replace-updated_at now s state))
