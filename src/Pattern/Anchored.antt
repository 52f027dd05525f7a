-- ===== src/Pattern/Anchored.antt =====
-- A pattern that is anchored at the beginning of a text and is a choice between texts asks whether the
-- text starts with one of them.
use Prim.Native.Char.{code}
use Prim.Native.String
use text.Mathlib.TextLemmas.{cons-append}
use mathlib.Core.List.{append-nil}
use dreamweaver.Prelude.{
  String, Bool, true, false, ◌&&◌, ◌||◌, List, [], ◌∷◌, ◌++◌, any, ◌==◌, to_lower, ◌≡◌, refl, ◌∙◌,
  arith,
}
use dreamweaver.Pattern.{
  Pattern, Place, begin, seq, prefix, is_word, ends, test_from, test, one_of, is_match,
}

-- `s.startsWith(t)`
unfoldable pub starts : String → String → Bool
starts String.[] s = true
starts (String.◌∷◌ d t) String.[] = false
starts (String.◌∷◌ d t) (String.◌∷◌ c s) = code c == code d && starts t s

pub starts_shorter : (t u s : String) → starts (String.◌++◌ t u) s ≡ true → starts t s ≡ true
unfolding starts
starts_shorter String.[] u s h = refl
starts_shorter (String.◌∷◌ d t) u String.[] h = rw cons-append at h
starts_shorter (String.◌∷◌ d t) u (String.◌∷◌ c s) h =
    ground (arith, starts_shorter t u s, (rw cons-append at h))

prefix-starts :
    (t : String) (start after : Bool) (s : String) → is_match (prefix t start after s) ≡ starts t s
unfolding prefix starts
prefix-starts String.[] start after s = refl
prefix-starts (String.◌∷◌ d t) start after String.[] = refl
prefix-starts (String.◌∷◌ d t) start after (String.◌∷◌ c s) =
    ground (arith, prefix-starts t false (is_word c) s)

is_match-append : (xs ys : List Place) → is_match (xs ++ ys) ≡ (is_match xs || is_match ys)
is_match-append [] ys = refl
is_match-append (x ∷ xs) ys = refl

one_of-starts :
    (t : String) (us : List String) (at : Place)
    → is_match (ends (one_of t us) at) ≡ (starts t at.rest || any (λ u. starts u at.rest) us)
unfolding one_of ends
one_of-starts t [] at = ground (arith, prefix-starts t at.at_start at.after_word at.rest)
one_of-starts t (u ∷ us) at =
    let here = prefix t at.at_start at.after_word at.rest in
    is_match-append here (ends (one_of u us) at)
    ∙ rw (prefix-starts t at.at_start at.after_word at.rest, one_of-starts u us at) refl

begin-later :
    (p : Pattern) (after : Bool) (s : String) → test_from (seq begin p) false after s ≡ false
unfolding test_from ends
begin-later p after String.[] = refl
begin-later p after (String.◌∷◌ c s) = begin-later p (is_word c) s

or_false : (b : Bool) → (b || false) ≡ b
or_false true = refl
or_false false = refl

begin-first :
    (p : Pattern) (s : String)
    → test_from (seq begin p) true false s
      ≡ is_match (ends p (record { at_start = true; after_word = false; rest = s }))
unfolding test_from
begin-first p String.[] = rw append-nil refl
begin-first p (String.◌∷◌ c s) =
    let at : Place = record { at_start = true; after_word = false; rest = String.◌∷◌ c s } in
    rw (append-nil, begin-later p (is_word c) s) (or_false (is_match (ends p at)))

pub begin-starts :
    (t : String) (us : List String) (s : String)
    → test (seq begin (one_of t us)) s
      ≡ (starts t (to_lower s) || any (λ u. starts u (to_lower s)) us)
unfolding test
begin-starts t us s = begin-first (one_of t us) (to_lower s) ∙ one_of-starts t us _
