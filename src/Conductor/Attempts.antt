-- ===== src/Conductor/Attempts.antt =====
-- The attempts of `conductStorySession` (BedtimeConductorAgent.ts): the calls of the model, and what
-- is done when one fails. `reply n` is the outcome of the call in round n, counted from 1. Costs are
-- in hundred-thousandths of a dollar. The texts of the traces that are returned are left out, but
-- for the thought itself.
pub mod Bounds
pub mod Answers
use dreamweaver.Prelude.{
  ℕ, zero, suc, ◌+◌, String, Option, none, some, List, [], ◌∷◌, min, max, ltb, str_eq,
  if◌then◌else◌,
}
use dreamweaver.Thought.Arbiter.{ThoughtStep}
use dreamweaver.Resilience.{
  FailureType, unknown, quality_breach, ResilienceEvent, Action, retry, self_correct, fallback,
  abort, degrade_service, Parameters, repair, timeout_ms, CorrectionPlan, assess_failure,
}

-- An `Error` that is thrown.
pub record Failure : Type 0 where
  pub name : String
  pub message : String

pub data Reply : Type 0 where
  thought : ThoughtStep → Reply
  failed : Failure → Reply

pub data Ending : Type 0 where
  -- The thought of the model, and the failure that came before it, if any.
  answered : ThoughtStep → Option Failure → Ending
  safe_mode : Ending
  -- The default answer, with the last failure.
  fallen_back : Option Failure → Ending

pub record Conducted : Type 0 where
  pub ending : Ending
  pub attempts : ℕ
  pub cost : ℕ
  pub waits : List ℕ

unfoldable pub failure_type : Failure → FailureType
failure_type f = if str_eq f.name "QualityGateError" then quality_breach else unknown

unfoldable pub event_of : Failure → ℕ → ℕ → ResilienceEvent
unfolding failure_type
event_of f attempts cost = record {
  type = failure_type f;
  error = some f.message;
  attempt = attempts;
  cost_so_far = cost;
}

-- The waits that a plan causes: no plan has `backoffMs`, and one with `timeoutMs` waits between 50
-- milliseconds and half a minute.
unfoldable pub plan_waits : Option Parameters → List ℕ
plan_waits none = []
plan_waits (some (repair instruction error)) = []
plan_waits (some (timeout_ms ms)) = if ltb 0 ms then min 30000 (max 50 ms) ∷ [] else []

abbrev pub with_wait : List ℕ → Conducted → Conducted
with_wait [] r = r
with_wait (w ∷ ws) r = record r { waits = w ∷ r.waits }

abbrev stop : Ending → ℕ → ℕ → Conducted
stop ending attempts cost = record { ending = ending; attempts = attempts; cost = cost; waits = [] }

-- What follows a failed attempt; `again` is the rest of the loop.
unfoldable pub after_failure : Failure → ℕ → ℕ → List ℕ → Conducted → Action → Conducted
after_failure f attempts cost waits again abort = stop (fallen_back (some f)) attempts cost
after_failure f attempts cost waits again fallback = stop (fallen_back (some f)) attempts cost
after_failure f attempts cost waits again degrade_service = stop safe_mode attempts cost
after_failure f attempts cost waits again retry = with_wait waits again
after_failure f attempts cost waits again self_correct = with_wait waits again

-- `while (attempts < maxAttempts)`: `left` is the number of rounds that are left, so that the loop
-- ends by its test when there are none.
unfoldable pub attempt_from : (ℕ → Reply) → (left attempts cost : ℕ) → Option Failure → Conducted
unfolding event_of plan_waits after_failure
attempt_from reply zero attempts cost last = stop (fallen_back last) attempts cost
attempt_from reply (suc left) attempts cost last = elim (reply (attempts + 1)) [
  | thought t ↦ stop (answered t last) (attempts + 1) cost
  | failed f ↦
      let plan = assess_failure (event_of f (attempts + 1) cost) in
      let cost' = cost + plan.estimated_cost in
      after_failure f (attempts + 1) cost' (plan_waits plan.parameters)
        (attempt_from reply left (attempts + 1) cost' (some f)) plan.action
]

unfoldable pub attempt_all : (ℕ → Reply) → Conducted
unfolding attempt_from
attempt_all reply = attempt_from reply 3 0 0 none
