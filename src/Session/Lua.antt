-- ===== src/Session/Lua.antt =====
-- The scripts that run inside Redis (api/src/infrastructure/adapters/RedisSessionState.ts), each on
-- the value of one session key. A JSON text is the state that it encodes; the encoding drops the
-- keys whose value is `undefined`. Keys do not expire here, and the index keys are left out.
use dreamweaver.Prelude.{
  ℕ, zero, suc, Option, none, some, List, [], ◌∷◌, ◌++◌, length, ltb, ◌==◌, or_else, if◌then◌else◌,
}
use dreamweaver.Session.{Snapshot, SessionState, Patch}
use dreamweaver.Session.Store.{shift, pop}

-- `table.insert(history, state)`, and `table.remove(history, 1)` when it is too long.
unfoldable pub push_history : ℕ → SessionState → List Snapshot
push_history max_history current =
    let history = or_else current.history [] ++ current.snapshot ∷ [] in
    if ltb max_history (length history) then shift history else history

-- UPDATE_SESSION_SCRIPT: the value that is written.
unfoldable pub update_script : ℕ → Option SessionState → Snapshot → SessionState
unfolding push_history
update_script max_history none new = record { snapshot = new; history = none }
update_script max_history (some current) new = record {
  snapshot = new;
  history = some (push_history max_history current);
}

-- An optional field of a decoded patch: an absent or dropped key leaves the field.
abbrev pub over {ℓ} : {A : Type ℓ} → Option (Option A) → Option A → Option A
over (some (some a)) old = some a
over (some none) old = old
over none old = old

-- `for k,v in pairs(partial) do currentState[k] = v end`
unfoldable pub merge_json : ℕ → Snapshot → Patch → Snapshot
merge_json now s p = record s {
  phase = or_else p.phase s.phase;
  active_intent = or_else p.active_intent s.active_intent;
  emotional_tone = or_else p.emotional_tone s.emotional_tone;
  active_goal = over p.active_goal s.active_goal;
  active_goals = over p.active_goals s.active_goals;
  session_start_time = over p.session_start_time s.session_start_time;
  last_suggested_theme = over p.last_suggested_theme s.last_suggested_theme;
  last_moment_timestamp = over p.last_moment_timestamp s.last_moment_timestamp;
  context = or_else p.context s.context;
  updated_at = now;
}

-- PATCH_SESSION_SCRIPT: the value that is written; `none` is the result 0.
unfoldable pub patch_script : ℕ → ℕ → Option SessionState → Patch → Option SessionState
unfolding push_history merge_json
patch_script max_history now none partial = none
patch_script max_history now (some current) partial = some (record {
  snapshot = merge_json now current.snapshot partial;
  history = some (push_history max_history current);
})

-- The loop of the rollback: it stops with the oldest snapshot when the history is used up.
unfoldable pub remove_steps : ℕ → Option Snapshot → List Snapshot → Option Snapshot × List Snapshot
remove_steps zero target history = (target, history)
remove_steps (suc steps) target [] = (none, [])
remove_steps (suc steps) target (x ∷ xs) =
    let (last, rest) = pop (x ∷ xs) in
    elim rest [ [] ↦ (last, []) | y ∷ ys ↦ remove_steps steps last (y ∷ ys) ]

abbrev settle : ℕ → Option Snapshot × List Snapshot → Option SessionState
settle updated_at (none, rest) = none
settle updated_at (some target, rest) =
    some (record { snapshot = record target { updated_at = updated_at }; history = some rest })

-- ROLLBACK_SESSION_SCRIPT: the value that is written; `none` is the result 0.
unfoldable pub rollback_script : ℕ → Option SessionState → Option SessionState
unfolding remove_steps
rollback_script steps none = none
rollback_script steps (some current) =
    let history = or_else current.history [] in
    if length history == 0
    then none
    else settle current.updated_at (remove_steps steps none history)
