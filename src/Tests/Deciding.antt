-- ===== src/Tests/Deciding.antt =====
-- The rules, the recovery and the checks at concrete inputs: AtomOfThoughtEngine.ts,
-- ResilienceEngine.ts, VerificationPipeline.ts under
-- api/src/domain/services, and api/src/infrastructure/resilience.ts.
use dreamweaver.Prelude.{ℕ, String, none, some, true, [], ◌∷◌}
use dreamweaver.Thought.{SessionPhase}
use dreamweaver.Thought.Arbiter.{ThoughtStep, ArbitrationContext}
use dreamweaver.Resilience.{ResilienceEvent, unknown}
use dreamweaver.Resilience.Retry.{PartialOptions, Outcome, thrown}
use dreamweaver.Verification.{VerifiableContent, golden_moment, ModelAnswer}

abbrev adventure : ThoughtStep
adventure = record {
  goals_considered = "BONDING" ∷ [];
  conflicts_identified = none;
  trade_off_made = none;
  thought = "Off to the jungle";
  action = "ADVENTURE_STORY";
  confidence = 90;
  parameters = some (("energyLevel", "high") ∷ []);
}

abbrev at : String → SessionPhase → ArbitrationContext
at time phase = record {
  time_of_day = time;
  child_age = 5;
  child_mood = "calm";
  active_goals = [];
  current_phase = phase;
}

abbrev limited : ResilienceEvent
limited = record { type = unknown; error = some "429 rate limit"; attempt = 1; cost_so_far = 0 }

abbrev broken : ℕ → Outcome ℕ String
broken n = thrown "again"

abbrev twice : PartialOptions
twice = record { max_retries = some 2; base_delay_ms = none; max_delay_ms = none }

abbrev giggle : VerifiableContent
giggle = record { type = golden_moment; description = some "Her first belly laugh" }

abbrev doubt : ModelAnswer
doubt = record { approved = true; reason = ""; confidence = 60 }
