-- ===== src/Safety.antt =====
-- The checks of generated texts (api/src/domain/services/SafetyGuardian.ts). The answer of the model is
-- a parameter: `none` is a failure of the call or an answer that the schema refuses.
pub mod Layers
use Prim.Native.Char.{code}
use Prim.Native.String
use dreamweaver.Prelude.{
  ℕ, zero, suc, ◌-◌, String, Option, none, some, Bool, true, false, List, [], ◌∷◌, any, ◌&&◌, ltb,
  str_eq, either, or_else, truthy, to_lower, includes, trim, if◌then◌else◌,
}
use dreamweaver.Goal.{show}
use dreamweaver.Pattern.{
  Pattern, literal, space, word, boundary, seq, alt, plus, star, opt, test, one_of, Place, prefix,
  size,
}

pub record SafetyCheckResult : Type 0 where
  pub is_safe : Bool
  pub reason : Option String
  pub fallback_content : Option String
  pub sanitized_content : Option String

pub record Verdict : Type 0 where
  pub is_safe : Bool
  pub reason : Option String

infixr 60 ◌⟫◌
abbrev ◌⟫◌ : Pattern → Pattern → Pattern
a ⟫ b = seq a b

abbrev spaces : Pattern
spaces = plus space

unfoldable pub banned_patterns : List Pattern
banned_patterns =
    (boundary
      ⟫ alt (one_of "violence" ("blood" ∷ "killing" ∷ "death" ∷ [])) (
          literal "monster"
          ⟫ spaces
          ⟫ literal "under"
          ⟫ spaces
          ⟫ literal "the"
          ⟫ spaces
          ⟫ literal "bed")
      ⟫ boundary)
    ∷ (boundary ⟫ one_of "scary" ("fright" ∷ "terror" ∷ "nightmare" ∷ []) ⟫ boundary)
    ∷ (boundary
        ⟫ alt (literal "bad" ⟫ spaces ⟫ literal "words")
            (literal "adult" ⟫ spaces ⟫ literal "themes")
        ⟫ boundary)
    ∷ []

unfoldable pub injection_patterns : List Pattern
injection_patterns =
    (literal "ignore"
      ⟫ spaces
      ⟫ one_of "previous" ("all" ∷ "above" ∷ [])
      ⟫ spaces
      ⟫ literal "instruction"
      ⟫ opt (literal "s"))
    ∷ (literal "disregard"
        ⟫ spaces
        ⟫ one_of "your" ("the" ∷ [])
        ⟫ spaces
        ⟫ one_of "rules" ("guidelines" ∷ "instructions" ∷ []))
    ∷ (literal "you"
        ⟫ spaces
        ⟫ literal "are"
        ⟫ spaces
        ⟫ literal "now"
        ⟫ spaces
        ⟫ opt (one_of "a" ("an" ∷ []))
        ⟫ star space
        ⟫ plus word)
    ∷ (literal "pretend"
        ⟫ spaces
        ⟫ alt (literal "to" ⟫ spaces ⟫ literal "be") (literal "you" ⟫ spaces ⟫ literal "are"))
    ∷ alt (boundary ⟫ literal "dan" ⟫ boundary)
        (boundary ⟫ literal "developer" ⟫ spaces ⟫ literal "mode" ⟫ boundary)
    ∷ (literal "[" ⟫ star space ⟫ literal "system" ⟫ star space ⟫ literal "]")
    ∷ (literal "{"
        ⟫ star space
        ⟫ literal "\"role\""
        ⟫ star space
        ⟫ literal ":"
        ⟫ star space
        ⟫ literal "\"system\"")
    ∷ (literal "<" ⟫ opt (literal "/") ⟫ one_of "system" ("assistant" ∷ "user" ∷ []) ⟫ literal ">")
    ∷ (literal "roleplay"
        ⟫ spaces
        ⟫ literal "as"
        ⟫ spaces
        ⟫ opt (one_of "a" ("an" ∷ []))
        ⟫ star space
        ⟫ one_of "evil" ("malicious" ∷ "bad" ∷ []))
    ∷ []

unfoldable pub complex_words : List String
complex_words = "existential" ∷ "misery" ∷ "taxes" ∷ "politics" ∷ []

abbrev unsafe : String → Option String → SafetyCheckResult
unsafe reason fallback = record {
  is_safe = false;
  reason = some reason;
  fallback_content = fallback;
  sanitized_content = none;
}

-- What is left after a text, in any case, at the beginning of another one.
unfoldable pub after_prefix : String → String → Option String
after_prefix String.[] s = some s
after_prefix (String.◌∷◌ d t) String.[] = none
after_prefix (String.◌∷◌ d t) (String.◌∷◌ c s) =
    let further = after_prefix t s in
    if str_eq (to_lower (String.◌∷◌ c String.[])) (String.◌∷◌ d String.[]) then further else none

-- What is left after the first closing tag.
unfoldable pub after_close : String → Option String
unfolding after_prefix
after_close String.[] = none
after_close (String.◌∷◌ c s) =
    let further = after_close s in
    elim (after_prefix "</thinking>" (String.◌∷◌ c s)) [ none ↦ further | some rest ↦ some rest ]

abbrev after_block : Option String → Option String
after_block none = none
after_block (some inside) = after_close inside

-- `replace(/<thinking>[\s\S]*?<\/thinking>/gi, '')`, in as many rounds as the text has characters.
unfoldable pub strip_thinking : ℕ → String → String
unfolding after_close
strip_thinking zero s = s
strip_thinking (suc n) String.[] = ""
strip_thinking (suc n) (String.◌∷◌ c s) =
    let kept = strip_thinking n s in
    elim (after_block (after_prefix "<thinking>" (String.◌∷◌ c s))) [
      | none ↦ String.◌∷◌ c kept
      | some rest ↦ strip_thinking n rest
    ]

unfoldable pub sanitize : String → String
unfolding strip_thinking
sanitize text = trim (strip_thinking (size text) text)

-- `text.substring(0, n)`, in UTF-16 units; a character that would be cut in half is left out.
unfoldable pub first_units : ℕ → String → String
first_units n String.[] = ""
first_units n (String.◌∷◌ c s) =
    let width : ℕ = if ltb (code c) 65536 then 1 else 2 in
    let further = first_units (n - width) s in if ltb n width then "" else String.◌∷◌ c further

-- Layers 3 and 4.
unfoldable pub check_output : (child_age : ℕ) → Option String → String → SafetyCheckResult
unfolding sanitize
check_output child_age fallback text =
    if ltb child_age 5 && any (includes (to_lower text)) complex_words
    then unsafe (String.◌++◌ "Layer 3 Violation: Content too complex for age " (show child_age))
        fallback
    else (record {
      is_safe = true;
      reason = none;
      fallback_content = none;
      sanitized_content =
          if str_eq (sanitize text) (trim text) then some text else some (sanitize text);
    })

-- Layer 2: without a verdict nothing is safe.
unfoldable pub check_verdict :
    (child_age : ℕ) → Option String → String → Option Verdict → SafetyCheckResult
unfolding check_output
check_verdict child_age fallback text none =
    unsafe "Safety Validation System Error (Fail Closed)"
      (either fallback (some "Content unavailable due to safety system error."))
check_verdict child_age fallback text (some v) =
    if v.is_safe
    then check_output child_age fallback text
    else unsafe (String.◌++◌ "Layer 2 Violation: " (or_else (truthy v.reason) "AI Flagged Content"))
        (either fallback (some "Content filtered."))

-- `checkContent`; without an age the child is five. Of the reason of layer 1 the pattern is left out.
unfoldable pub check_content :
    (verdict : String → ℕ → Option Verdict)
    → String
    → (child_age : Option ℕ) (fallback : Option String) → SafetyCheckResult
unfolding check_verdict
check_content verdict text child_age fallback =
    let age = or_else child_age 5 in
    if any (λ p. test p text) injection_patterns
    then unsafe "Layer 0 Violation: Prompt injection attempt detected"
        (either fallback (some "Content blocked for security."))
    else if any (λ p. test p text) banned_patterns
    then unsafe "Layer 1 Violation: Found prohibited pattern"
        (either fallback (some "Story removed for safety."))
    else check_verdict age fallback text (verdict (first_units 2000 text) age)
