-- ===== src/Intent/Words.antt =====
-- What the beginning of a text says of its intent.
use dreamweaver.Prelude.{
  String, Bool, true, List, [], ◌∷◌, any, to_lower, ◌≡◌, refl, arith, if◌then◌else◌, ◌∙◌,
}
use dreamweaver.Pattern.Anchored.{starts, starts_shorter, begin-starts}
use dreamweaver.Intent.{
  ask_question, interrupt, direct, affirm, deny, unknown, directives, questions, affirmations,
  denials, interrupts, classify,
}

-- Whether a text begins with one of some texts.
abbrev pub opens_with : List String → String → Bool
opens_with words said = any (λ w. starts w said) words

-- What a child says is classified by how it begins, in lower case, and by the first list of
-- beginnings that has one of it.
pub classify-opens_with :
    (said : String)
    → classify said ≡ (
        let s = to_lower said in
        if opens_with ("i want" ∷ "change" ∷ "make" ∷ "let's" ∷ "can we" ∷ "stop" ∷ "go" ∷ []) s
        then direct
        else if opens_with ("why" ∷ "who" ∷ "what" ∷ "where" ∷ "when" ∷ "how" ∷ "?" ∷ []) s
        then ask_question
        else if opens_with
            ("yes" ∷ "yeah" ∷ "sure" ∷ "ok" ∷ "good" ∷ "cool" ∷ "love" ∷ "like" ∷ [])
            s
        then affirm
        else if opens_with ("no" ∷ "nah" ∷ "hate" ∷ "dislike" ∷ "scary" ∷ "bad" ∷ "don't" ∷ []) s
        then deny
        else if opens_with ("wait" ∷ "hold on" ∷ "pause" ∷ []) s
        then interrupt
        else unknown)
unfolding classify directives questions affirmations denials interrupts
classify-opens_with said =
    rw
      (
        begin-starts "i want" ("change" ∷ "make" ∷ "let's" ∷ "can we" ∷ "stop" ∷ "go" ∷ []) said,
        begin-starts "why" ("who" ∷ "what" ∷ "where" ∷ "when" ∷ "how" ∷ "?" ∷ []) said,
        begin-starts "yes" ("yeah" ∷ "sure" ∷ "ok" ∷ "good" ∷ "cool" ∷ "love" ∷ "like" ∷ []) said,
        begin-starts "no" ("nah" ∷ "hate" ∷ "dislike" ∷ "scary" ∷ "bad" ∷ "don't" ∷ []) said,
        begin-starts "wait" ("hold on" ∷ "pause" ∷ []) said,
      )
      refl

any-true :
    (said : String)
    → starts "go" (to_lower said) ≡ true
    → opens_with
        ("i want" ∷ "change" ∷ "make" ∷ "let's" ∷ "can we" ∷ "stop" ∷ "go" ∷ [])
        (to_lower said)
      ≡ true
any-true said h = ground (arith, h)

-- A text that begins with `good`, in any case, is a directive and never an affirmation, although `good`
-- is among the affirmations: `go` is among the directives.
pub good_is_direct : (said : String) → starts "good" (to_lower said) ≡ true → classify said ≡ direct
good_is_direct said h =
    let go : starts "go" (to_lower said) ≡ true = starts_shorter "go" "od" (to_lower said) h in
    classify-opens_with said ∙ rw (any-true said go) refl
