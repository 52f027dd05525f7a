-- ===== src/Verification.antt =====
-- The checks of a golden moment or a safety action before it is kept
-- (api/src/domain/services/VerificationPipeline.ts). The answer of the model is a parameter;
-- confidences are in hundredths.
pub mod Gates
use dreamweaver.Prelude.{
  ℕ, suc, ◌+◌, String, Option, none, some, Bool, true, false, not, List, [], ◌∷◌, ◌++◌, ltb, leb,
  str_eq, if◌then◌else◌, utf16_length,
}

pub data ContentType : Type 0 where
  golden_moment safety_action : ContentType

pub record VerifiableContent : Type 0 where
  pub type : ContentType
  -- `content.description`, if it is a string.
  pub description : Option String

pub data Stage : Type 0 where
  rule model human : Stage

pub record VerificationResult : Type 0 where
  pub approved : Bool
  pub stage : Stage
  pub reason : String
  pub confidence : ℕ

-- What the model returns.
pub record ModelAnswer : Type 0 where
  pub approved : Bool
  pub reason : String
  pub confidence : ℕ

-- An item in the queue of the reviewers.
pub record Review : Type 0 where
  pub item : VerifiableContent
  pub reason : String
  pub confidence : ℕ

abbrev is_acceptable : ContentType → Option String → Bool
is_acceptable golden_moment none = false
is_acceptable golden_moment (some text) = not (ltb (utf16_length text) 10)
is_acceptable safety_action text = true

unfoldable pub passed_rule_check : VerifiableContent → Bool
unfolding utf16_length
passed_rule_check item = is_acceptable item.type item.description

abbrev validator_error : ModelAnswer
validator_error = record { approved = false; reason = "Validator error"; confidence = 0 }

-- `none` is a call that fails or an answer that has not the fields of the schema.
unfoldable pub perform_model_check : Option ModelAnswer → ModelAnswer
perform_model_check none = validator_error
perform_model_check (some a) = if leb a.confidence 100 then a else validator_error

abbrev decide : VerifiableContent → ModelAnswer → List Review → List Review × VerificationResult
decide item m queue =
    if not m.approved
    then (
      queue,
      record {
        approved = false;
        stage = model;
        reason = if str_eq m.reason "" then "AI Validator rejected" else m.reason;
        confidence = m.confidence;
      },
    )
    else if ltb m.confidence 80
    then (
      queue
          ++ record {
            item = item;
            reason = "Low confidence model validation";
            confidence = m.confidence;
          }
            ∷ [],
      record {
        approved = false;
        stage = human;
        reason = "Flagged for human review";
        confidence = m.confidence;
      },
    )
    else (
      queue,
      record {
        approved = true;
        stage = model;
        reason = "All checks passed";
        confidence = m.confidence;
      },
    )

-- The queue afterwards, and the result.
unfoldable pub verify :
    VerifiableContent → Option ModelAnswer → List Review → List Review × VerificationResult
unfolding passed_rule_check perform_model_check
verify item answer queue =
    if not (passed_rule_check item)
    then (
      queue,
      record {
        approved = false;
        stage = rule;
        reason = "Failed static safety rules";
        confidence = 100;
      },
    )
    else decide item (perform_model_check answer) queue
