-- ===== src/Resilience/Policy.antt =====
-- The limits that every plan keeps (ResilienceEngine.ts).
use dreamweaver.Prelude.{
  ℕ, zero, suc, ◌≤◌, ◌<◌, ◌+◌, ◌*◌, ◌^◌, String, Option, none, some, Bool, true, false, ◌≡◌, ◌≢◌,
  ◌⊎◌, arith,
}
use dreamweaver.Resilience.{
  FailureType, token_limit, ResilienceEvent, Action, retry, self_correct, flash, edge, timeout_ms,
  repair, CorrectionPlan, classify, refined_type, strategy, assess_failure,
}

-- The action makes another call of the model.
abbrev pub calls_again : Action → Bool
calls_again retry = true
calls_again self_correct = true
calls_again _ = false

-- The longest wait that a plan asks for.
abbrev pub wait_of : CorrectionPlan → ℕ
wait_of plan = elim plan.parameters [
  | none ↦ 0
  | some p ↦ elim p [ repair i e ↦ 0 | timeout_ms ms ↦ ms ]
]

backoff_le : (attempt : ℕ) → attempt < 3 → 1000 * 2 ^ attempt ≤ 4000
backoff_le zero h = omega arith
backoff_le (suc zero) h = omega arith
backoff_le (suc (suc zero)) h = omega arith
backoff_le (suc (suc (suc n))) h = omega arith

backoff_short : (attempt : ℕ) → attempt < 3 → 1000 * 2 ^ attempt ≤ 5000 * (attempt + 1)
backoff_short zero h = omega arith
backoff_short (suc zero) h = omega arith
backoff_short (suc (suc zero)) h = omega arith
backoff_short (suc (suc (suc n))) h = omega arith

strategy_bounds :
    (type : FailureType) (error : Option String) (attempt : ℕ)
    → attempt < 3
    → (wait_of (strategy type error attempt) ≤ 15000)
      × ((strategy type error attempt).estimated_cost ≤ 5)
unfolding strategy
strategy_bounds type error attempt h = ground (arith, backoff_le attempt h)

-- Every plan costs at most 0.00005 dollars and waits at most fifteen seconds.
pub assess_failure_bounds :
    (event : ResilienceEvent)
    → (wait_of (assess_failure event) ≤ 15000) × ((assess_failure event).estimated_cost ≤ 5)
unfolding assess_failure
assess_failure_bounds event =
    ground (arith, strategy_bounds (refined_type event.type event.error) event.error event.attempt)

-- The wait of a plan grows with the attempt.
strategy_wait :
    (type : FailureType) (error : Option String) (attempt : ℕ)
    → attempt < 3
    → wait_of (strategy type error attempt) ≤ 5000 * (attempt + 1)
unfolding strategy
strategy_wait type error attempt h = ground (arith, backoff_short attempt h)

pub assess_failure_wait :
    (event : ResilienceEvent) → wait_of (assess_failure event) ≤ 5000 * (event.attempt + 1)
unfolding assess_failure
assess_failure_wait event =
    ground (arith, strategy_wait (refined_type event.type event.error) event.error event.attempt)

-- The plan is local and free, or it calls the cheap model again.
abbrev IsSplit : CorrectionPlan → Type 0
IsSplit plan =
    ((calls_again plan.action ≡ true) × (plan.model ≡ flash))
    ⊎ ((calls_again plan.action ≡ false) × (plan.model ≡ edge) × (plan.estimated_cost ≡ 0))

strategy-IsSplit :
    (type : FailureType) (error : Option String) (attempt : ℕ)
    → IsSplit (strategy type error attempt)
unfolding strategy
strategy-IsSplit type error attempt = ground arith

-- A plan calls the model again only below the third attempt and within the budget of 0.05 dollars,
-- and then on the cheap model; any other plan is local and free.
pub calls_again_within :
    (event : ResilienceEvent)
    → ((calls_again (assess_failure event).action ≡ true)
        × (event.attempt < 3)
        × (event.cost_so_far ≤ 5000)
        × ((assess_failure event).model ≡ flash))
      ⊎ ((calls_again (assess_failure event).action ≡ false)
          × ((assess_failure event).model ≡ edge)
          × ((assess_failure event).estimated_cost ≡ 0))
unfolding assess_failure
calls_again_within event =
    ground (arith, strategy-IsSplit (refined_type event.type event.error) event.error event.attempt)

-- An error text is never read as an exceeded token limit.
classify-ne-token_limit : (msg : String) → classify msg ≢ token_limit
unfolding classify
classify-ne-token_limit msg = ground arith
