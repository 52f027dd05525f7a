-- ===== src/Resilience.antt =====
-- What to do after a failure (api/src/infrastructure/services/ResilienceEngine.ts; the file of that
-- name under api/src/domain/services is the same code). Costs are in hundred-thousandths of a
-- dollar: 0.05 is 5000 and 0.00005 is 5.
pub mod Policy
pub mod Retry
use dreamweaver.Prelude.{
  ℕ, ◌+◌, ◌*◌, ◌^◌, String, Option, none, some, Bool, ◌||◌, true, false, ltb, leb, if◌then◌else◌,
  includes, to_lower, str_eq,
}

pub data FailureType : Type 0 where
  network_timeout schema_drift safety_violation token_limit api_rate_limit api_auth_error :
      FailureType
  api_server_error api_bad_request quality_breach unknown : FailureType

pub record ResilienceEvent : Type 0 where
  pub type : FailureType
  -- `context['error']`
  pub error : Option String
  pub attempt : ℕ
  pub cost_so_far : ℕ

pub data Action : Type 0 where
  retry self_correct fallback abort degrade_service : Action

pub data Model : Type 0 where
  flash pro edge : Model

pub data Parameters : Type 0 where
  repair : (instruction : String) (error_context : Option String) → Parameters
  timeout_ms : ℕ → Parameters

pub record CorrectionPlan : Type 0 where
  pub action : Action
  pub model : Model
  pub parameters : Option Parameters
  pub estimated_cost : ℕ

-- The tests of `mapErrorToFailureType`, on the lower-case message.
classify : String → FailureType
classify msg =
    if includes msg "429" || (includes msg "rate limit" || includes msg "quota")
    then api_rate_limit
    else if includes msg "401"
        || (includes msg "403" || (includes msg "auth" || includes msg "permission"))
    then api_auth_error
    else if includes msg "500"
        || (includes msg "503" || (includes msg "internal" || includes msg "unavailable"))
    then api_server_error
    else if includes msg "400" || (includes msg "bad request" || includes msg "invalid argument")
    then api_bad_request
    else if includes msg "json" || includes msg "parse"
    then schema_drift
    else if includes msg "safety" || includes msg "blocked"
    then safety_violation
    else if includes msg "timeout"
    then network_timeout
    else if includes msg "quality gate" || includes msg "breach"
    then quality_breach
    else unknown

unfoldable pub map_error_to_failure_type : String → FailureType
unfolding classify includes to_lower
map_error_to_failure_type error = classify (to_lower error)

-- An absent and an empty error text are both false.
abbrev refine_unknown : Option String → FailureType
refine_unknown none = unknown
refine_unknown (some error) = if str_eq error "" then unknown else map_error_to_failure_type error

unfoldable pub refined_type : FailureType → Option String → FailureType
refined_type unknown error = refine_unknown error
refined_type type error = type

-- A plan with no cost and no parameters on the local model.
abbrev local : Action → CorrectionPlan
local action = record { action = action; model = edge; parameters = none; estimated_cost = 0 }

abbrev wait_and_retry : ℕ → CorrectionPlan
wait_and_retry ms = record {
  action = retry;
  model = flash;
  parameters = some (timeout_ms ms);
  estimated_cost = 0;
}

-- The `switch` on the refined type.
unfoldable pub strategy : FailureType → Option String → ℕ → CorrectionPlan
strategy schema_drift error attempt = record {
  action = self_correct;
  model = flash;
  parameters = some (repair "Fix the JSON syntax" error);
  estimated_cost = 5;
}
strategy network_timeout error attempt = wait_and_retry (5000 * (attempt + 1))
strategy api_server_error error attempt = wait_and_retry (5000 * (attempt + 1))
strategy api_rate_limit error attempt = wait_and_retry (1000 * 2 ^ attempt)
strategy safety_violation error attempt = local fallback
strategy api_auth_error error attempt = local fallback
strategy api_bad_request error attempt = local fallback
strategy token_limit error attempt = local abort
strategy quality_breach error attempt = local degrade_service
strategy unknown error attempt = local fallback

unfoldable pub assess_failure : ResilienceEvent → CorrectionPlan
unfolding strategy
assess_failure event =
    if ltb 5000 event.cost_so_far
    then local abort
    else if leb 3 event.attempt
    then local fallback
    else strategy (refined_type event.type event.error) event.error event.attempt
