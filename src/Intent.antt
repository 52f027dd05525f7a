-- ===== src/Intent.antt =====
-- The classification of what a child says (api/src/domain/services/IntentClassifier.ts).
pub mod Words
use dreamweaver.Prelude.{String, [], ◌∷◌, if◌then◌else◌}
use dreamweaver.Pattern.{Pattern, begin, seq, one_of, test}

pub data ChildIntent : Type 0 where
  ask_question interrupt direct affirm deny unknown : ChildIntent

unfoldable pub directives : Pattern
directives =
    seq begin (one_of "i want" ("change" ∷ "make" ∷ "let's" ∷ "can we" ∷ "stop" ∷ "go" ∷ []))

unfoldable pub questions : Pattern
questions = seq begin (one_of "why" ("who" ∷ "what" ∷ "where" ∷ "when" ∷ "how" ∷ "?" ∷ []))

unfoldable pub affirmations : Pattern
affirmations =
    seq begin (one_of "yes" ("yeah" ∷ "sure" ∷ "ok" ∷ "good" ∷ "cool" ∷ "love" ∷ "like" ∷ []))

unfoldable pub denials : Pattern
denials = seq begin (one_of "no" ("nah" ∷ "hate" ∷ "dislike" ∷ "scary" ∷ "bad" ∷ "don't" ∷ []))

unfoldable pub interrupts : Pattern
interrupts = seq begin (one_of "wait" ("hold on" ∷ "pause" ∷ []))

unfoldable pub classify : String → ChildIntent
classify said =
    if test directives said
    then direct
    else if test questions said
    then ask_question
    else if test affirmations said
    then affirm
    else if test denials said
    then deny
    else if test interrupts said
    then interrupt
    else unknown
