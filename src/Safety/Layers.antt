-- ===== src/Safety/Layers.antt =====
-- What the layers of the guardian let through.
use dreamweaver.Prelude.{
  ℕ, String, Option, none, some, Bool, false, not, ◌&&◌, any, ◌≡◌, refl, arith, ltb, str_eq,
  or_else, includes, to_lower,
}
use dreamweaver.Pattern.{test}
use dreamweaver.Safety.{
  Verdict, check_content, check_verdict, check_output, first_units, injection_patterns,
  banned_patterns, complex_words,
}

-- Whether the model answers that a text is safe.
abbrev pub is_cleared : Option Verdict → Bool
is_cleared none = false
is_cleared (some v) = v.is_safe

check_verdict-is_safe :
    (age : ℕ) (fallback : Option String) (text : String) (v : Option Verdict)
    → (check_verdict age fallback text v).is_safe
      ≡ (is_cleared v && not (ltb age 5 && any (includes (to_lower text)) complex_words))
unfolding check_verdict check_output
check_verdict-is_safe age fallback text none = refl
check_verdict-is_safe age fallback text (some v) = ground arith

-- A text is safe exactly if no pattern for injections and no banned pattern is found in it, the model
-- answers that its first 2000 units are safe, and, for a child under five, it has no complex word.
-- So nothing is safe if the model fails.
pub check_content-is_safe :
    (verdict : String → ℕ → Option Verdict) (text : String) (child_age : Option ℕ)
    (fallback : Option String)
    → (check_content verdict text child_age fallback).is_safe ≡ (
        not (any (λ p. test p text) injection_patterns)
        && (not (any (λ p. test p text) banned_patterns)
            && (is_cleared (verdict (first_units 2000 text) (or_else child_age 5))
                && not
                    (ltb (or_else child_age 5) 5 && any (includes (to_lower text)) complex_words))))
unfolding check_content
check_content-is_safe verdict text child_age fallback = ground (
  arith,
  check_verdict-is_safe (or_else child_age 5) fallback text
      (verdict (first_units 2000 text) (or_else child_age 5)),
)

check_verdict-fallback :
    (age : ℕ) (fallback text : String) (v : Option Verdict)
    → str_eq fallback "" ≡ false
    → (check_verdict age (some fallback) text v).is_safe ≡ false
    → (check_verdict age (some fallback) text v).fallback_content ≡ some fallback
unfolding check_verdict check_output
check_verdict-fallback age fallback text none given h = ground (arith, given)
check_verdict-fallback age fallback text (some v) given h = ground (arith, given, h)

-- A text that is not safe comes with the fallback that was given, whichever layer refuses it.
pub check_content-fallback :
    (verdict : String → ℕ → Option Verdict) (text : String) (child_age : Option ℕ)
    (fallback : String)
    → str_eq fallback "" ≡ false
    → (check_content verdict text child_age (some fallback)).is_safe ≡ false
    → (check_content verdict text child_age (some fallback)).fallback_content ≡ some fallback
unfolding check_content
check_content-fallback verdict text child_age fallback given h = ground (
  arith,
  given,
  h,
  check_verdict-fallback (or_else child_age 5) fallback text
      (verdict (first_units 2000 text) (or_else child_age 5)),
)
