-- ===== src/Tests/Sessions.antt =====
-- Sessions in the two stores (api/src/infrastructure/adapters/InMemorySessionState.ts and
-- RedisSessionState.ts) at concrete states.
use dreamweaver.Prelude.{
  suc, none, some, [], ◌∷◌, ◌≡◌, refl, arith, lookup, str_eq, if◌then◌else◌, length,
}
use dreamweaver.Thought.{idle, onboarding}
use dreamweaver.Session.{ActiveIntent, Snapshot, SessionState, Patch}
use dreamweaver.Session.Store.{Store, stamp, trimmed, rollback, set}
use dreamweaver.Session.Store.TimeTravel.{rollback_restores, rollback-set}
use dreamweaver.Session.Lua.{rollback_script}
use dreamweaver.Session.Agreement.{IsDefined, rollback_divergence}

abbrev first : Snapshot
first = record {
  session_id = "s";
  user_id = "u";
  phase = idle;
  active_intent = ActiveIntent.idle;
  emotional_tone = 50;
  active_goal = none;
  active_goals = none;
  session_start_time = none;
  last_suggested_theme = none;
  last_moment_timestamp = none;
  context = [];
  updated_at = 1;
}

abbrev second : Snapshot
second = record first { phase = onboarding; updated_at = 2 }

abbrev third : Snapshot
third = record second { emotional_tone = 20; updated_at = 3 }

abbrev current : SessionState
current = record { snapshot = third; history = some (first ∷ second ∷ []) }

abbrev store : Store
store = ("s", current) ∷ []

-- Makes the session calmer, and sets a theme.
abbrev calmer : Patch
calmer = record {
  phase = none;
  active_intent = none;
  emotional_tone = some 10;
  active_goal = none;
  active_goals = none;
  session_start_time = none;
  last_suggested_theme = some (some "moon");
  last_moment_timestamp = none;
  context = none;
}

rollback_restores_example : lookup "s" (rollback 9 "s" (suc (length (second ∷ []))) store) ≡ (
    if str_eq "s" "s"
    then some (record { snapshot = stamp 9 first; history = some [] })
    else lookup "s" store)
unfolding lookup
rollback_restores_example =
    rollback_restores 9 "s" "s" store current [] (second ∷ []) first refl refl

rollback-set_example :
    lookup "s" (rollback 9 "s" 1 (set 8 "s" (record { snapshot = first; history = none }) store))
    ≡ some (record { snapshot = stamp 9 third; history = some (trimmed current) })
unfolding lookup
rollback-set_example =
    rollback-set 8 9 "s" (record { snapshot = first; history = none }) store current refl

rollback_divergence_example :
    (rollback 9 "s" 3 store ≡ store)
    × (rollback_script 3 (some current)
        ≡ some (record { snapshot = stamp 3 first; history = some [] }))
unfolding lookup
rollback_divergence_example =
    rollback_divergence 9 "s" 3 store current first (second ∷ []) refl refl (omega arith)

calmer-IsDefined : IsDefined calmer
calmer-IsDefined = record {
  goal = λ e. cc;
  goals = λ e. cc;
  start = λ e. cc;
  theme = λ e. cc;
  moment = λ e. cc;
}
