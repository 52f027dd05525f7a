-- ===== src/Pattern.antt =====
-- The regular expressions that the code tests texts against, without groups, and ignoring the case of
-- ASCII letters: a pattern is written in lower case, and the text is brought to lower case first.
pub mod Anchored
use Prim.Native.Char.{Char, code}
use Prim.Native.String
use dreamweaver.Prelude.{
  ℕ, zero, suc, String, Option, none, some, Bool, true, false, not, ◌&&◌, ◌||◌, List, [], ◌∷◌, ◌++◌,
  leb, ◌==◌, to_lower, is_space, if◌then◌else◌,
}

pub data Pattern : Type 0 where
  -- a literal text
  literal : String → Pattern
  -- `\s`, `\w`, `\b`, and the beginning of the text
  space word boundary begin : Pattern
  -- one pattern after the other, and `a|b`
  seq alt : Pattern → Pattern → Pattern
  -- `a+`, `a*`, `a?`
  plus star opt : Pattern → Pattern

-- Where a match stands: at the beginning of the text, after a word character, and what is left.
pub record Place : Type 0 where
  pub at_start : Bool
  pub after_word : Bool
  pub rest : String

abbrev is_word : Char → Bool
is_word c =
    let n = code c in
    (leb b'a' n && leb n b'z')
    || (leb b'A' n && leb n b'Z')
    || (leb b'0' n && leb n b'9')
    || n == b'_'

abbrev step_over : Char → String → Place
step_over c s = record { at_start = false; after_word = is_word c; rest = s }

-- One character that passes the test.
abbrev one : (Char → Bool) → String → List Place
one p String.[] = []
one p (String.◌∷◌ c s) = if p c then step_over c s ∷ [] else []

-- A literal text.
unfoldable pub prefix : String → (at_start after_word : Bool) → String → List Place
prefix String.[] start after s = record { at_start = start; after_word = after; rest = s } ∷ []
prefix (String.◌∷◌ d t) start after String.[] = []
prefix (String.◌∷◌ d t) start after (String.◌∷◌ c s) =
    let further = prefix t false (is_word c) s in if code c == code d then further else []

abbrev begins_with_word : String → Bool
begins_with_word String.[] = false
begins_with_word (String.◌∷◌ c s) = is_word c

abbrev differ : Bool → Bool → Bool
differ true b = not b
differ false b = b

abbrev bind : List Place → (Place → List Place) → List Place
bind [] f = []
bind (a ∷ as') f = f a ++ bind as' f

-- Any number of steps, at most as many as characters are left.
unfoldable pub iterate : (Place → List Place) → ℕ → Place → List Place
iterate f zero at = at ∷ []
iterate f (suc n) at = at ∷ bind (f at) (iterate f n)

abbrev pub size : String → ℕ
size String.[] = 0
size (String.◌∷◌ c s) = suc (size s)

-- The places where a match that begins at a place can end.
unfoldable pub ends : Pattern → Place → List Place
unfolding prefix iterate
ends (literal t) at = prefix t at.at_start at.after_word at.rest
ends space at = one is_space at.rest
ends word at = one is_word at.rest
ends boundary at = if differ at.after_word (begins_with_word at.rest) then at ∷ [] else []
ends begin at = if at.at_start then at ∷ [] else []
ends (seq a b) at = bind (ends a at) (ends b)
ends (alt a b) at = ends a at ++ ends b at
ends (plus a) at = bind (ends a at) (iterate (ends a) (size at.rest))
ends (star a) at = iterate (ends a) (size at.rest) at
ends (opt a) at = at ∷ ends a at

abbrev is_match : List Place → Bool
is_match [] = false
is_match (p ∷ ps) = true

-- A match that begins anywhere.
unfoldable pub test_from : Pattern → (at_start after_word : Bool) → String → Bool
unfolding ends
test_from p start after String.[] =
    is_match (ends p (record { at_start = start; after_word = after; rest = "" }))
test_from p start after (String.◌∷◌ c s) =
    let later = test_from p false (is_word c) s in
    is_match (ends p (record { at_start = start; after_word = after; rest = String.◌∷◌ c s }))
    || later

-- `/p/i.test(s)`
unfoldable pub test : Pattern → String → Bool
unfolding test_from
test p s = test_from p true false (to_lower s)

-- A choice between texts.
unfoldable pub one_of : String → List String → Pattern
one_of t [] = literal t
one_of t (u ∷ us) = alt (literal t) (one_of u us)
