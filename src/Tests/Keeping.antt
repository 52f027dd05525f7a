-- ===== src/Tests/Keeping.antt =====
-- Sessions in Redis with their keys (api/src/infrastructure/adapters/RedisSessionState.ts) at
-- concrete times.
use dreamweaver.Prelude.{◌+◌, none, some, [], ◌≡◌, refl, lookup, ltb, if◌then◌else◌, arith}
use dreamweaver.Thought.{onboarding}
use dreamweaver.Session.{ActiveIntent, SessionState, Patch}
use dreamweaver.Session.Redis.{Redis, get, set, patch, live, legacy_key, strict_key}
use dreamweaver.Session.Redis.Days.{day, written, get-set}
use dreamweaver.Session.Redis.Lost.{patched_session_lost}

abbrev evening : SessionState
evening = record {
  snapshot = record {
    session_id = "s";
    user_id = "u";
    phase = onboarding;
    active_intent = ActiveIntent.idle;
    emotional_tone = 50;
    active_goal = none;
    active_goals = none;
    session_start_time = none;
    last_suggested_theme = none;
    last_moment_timestamp = none;
    context = [];
    updated_at = 1;
  };
  history = none;
}

abbrev bare : Redis
bare = record { sessions = []; lookups = []; indices = [] }

abbrev softer : Patch
softer = record {
  phase = none;
  active_intent = none;
  emotional_tone = some 10;
  active_goal = none;
  active_goals = none;
  session_start_time = none;
  last_suggested_theme = none;
  last_moment_timestamp = none;
  context = none;
}

get-set_example : get 3600000 "s" (set 5 "s" evening bare) ≡ (
    if ltb 3600000 (5 + day)
    then some (written 5 "s" evening bare)
    else live 3600000 (legacy_key "s") bare.sessions)
get-set_example = get-set 5 3600000 "s" evening bare refl refl

patched_session_lost_example :
    (next : SessionState) × (db' : Redis) × (patch 3600000 "s" softer (set 0 "s" evening bare)
      ≡ some db')
    × (get 86400000 "s" db' ≡ none)
    × (live 86400000 (strict_key "u" "s") db'.sessions ≡ some next)
unfolding live lookup
patched_session_lost_example =
    patched_session_lost 0 3600000 86400000 "s" evening softer bare refl refl (omega arith)
      (omega arith) (omega arith) refl
