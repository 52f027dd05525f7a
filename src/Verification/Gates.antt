-- ===== src/Verification/Gates.antt =====
-- When an item is approved, and when the reviewers get it.
use dreamweaver.Prelude.{
  ℕ, ◌≤◌, Option, none, some, Bool, true, false, ◌≡◌, ◌↔◌, arith, List, [], ◌∷◌, ◌++◌,
  if◌then◌else◌, ◌&&◌,
}
use dreamweaver.Verification.{
  Stage, VerifiableContent, rule, model, human, ModelAnswer, Review, passed_rule_check,
  perform_model_check, verify,
}

-- An answer of the model that approves, and is sure to at least 0.8 and at most 1.
pub IsSure : Option ModelAnswer → Type 0
IsSure none = ⊥
IsSure (some a) = (a.approved ≡ true) × (80 ≤ a.confidence) × (a.confidence ≤ 100)

-- An item is approved exactly if it passes the rules and the model answers, approves it, and is sure
-- to at least 0.8 and at most 1: without an answer nothing is approved.
pub verify_approves :
    (item : VerifiableContent) (answer : Option ModelAnswer) (queue : List Review)
    → ((verify item answer queue).1.approved ≡ true)
      ↔ ((passed_rule_check item ≡ true) × IsSure answer)
unfolding verify perform_model_check IsSure
verify_approves item none queue = ground arith
verify_approves item (some a) queue = ground arith

abbrev pub is_human : Stage → Bool
is_human rule = false
is_human model = false
is_human human = true

abbrev pub doubtful : VerifiableContent → ℕ → Review
doubtful item confidence = record {
  item = item;
  reason = "Low confidence model validation";
  confidence = confidence;
}

-- The reviewers get one item more, the one that is checked, exactly in the stage HUMAN, and it is not
-- approved then.
pub verify_queues :
    (item : VerifiableContent) (answer : Option ModelAnswer) (queue : List Review)
    → let r = verify item answer queue in
      (r.0 ≡ (if is_human r.1.stage then queue ++ doubtful item r.1.confidence ∷ [] else queue))
      × ((is_human r.1.stage && r.1.approved) ≡ false)
unfolding verify perform_model_check
verify_queues item none queue = ground arith
verify_queues item (some a) queue = ground arith
