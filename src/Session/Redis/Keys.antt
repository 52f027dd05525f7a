-- ===== src/Session/Redis/Keys.antt =====
-- Which keys of Redis can be the same: none, if the identifiers of the sessions have no colon.
use Prim.Native.Char.{Char, code}
use Prim.Native.String
use text.Mathlib.TextLemmas.{nil-append, cons-append, append_cancel_left}
use dreamweaver.Prelude.{
  String, Bool, true, false, ◌||◌, ◌≡◌, ◌≢◌, refl, ◌∙◌, sym, ap, arith, ◌==◌, str_eq, eq_iff,
  if◌then◌else◌, Bool-cases, inl, inr,
}
use dreamweaver.Session.Redis.{legacy_key, strict_key, lookup_key}

abbrev pub has_colon : String → Bool
has_colon String.[] = false
has_colon (String.◌∷◌ c s) = code c == b':' || has_colon s

-- What stands after the last colon.
abbrev last_part : String → String
last_part String.[] = String.[]
last_part (String.◌∷◌ c s) =
    let rest = last_part s in
    if has_colon s then rest else if code c == b':' then s else String.◌∷◌ c s

abbrev pub colon : Char
colon = ":"

pub colon_append : (s : String) → String.◌++◌ ":" s ≡ String.◌∷◌ colon s
colon_append s = cons-append colon "" s ∙ ap (String.◌∷◌ colon) (nil-append s)

pub has_colon-append : (u s : String) → has_colon (String.◌++◌ u (String.◌∷◌ colon s)) ≡ true
has_colon-append String.[] s = rw nil-append refl
has_colon-append (String.◌∷◌ c u) s = rw cons-append (ground (arith, has_colon-append u s))

last_part-append :
    (u s : String) → has_colon s ≡ false → last_part (String.◌++◌ u (String.◌∷◌ colon s)) ≡ s
last_part-append String.[] s h = rw nil-append (ground (arith, h))
last_part-append (String.◌∷◌ c u) s h =
    rw cons-append (ground (arith, has_colon-append u s, last_part-append u s h))

-- Different texts.
pub differ : (a b : String) → a ≢ b → str_eq a b ≡ false
differ a b n = elim (Bool-cases (str_eq a b)) [
  | inl same ↦ absurd (n ((eq_iff a b).0 same))
  | inr other ↦ other
]

pub strict_key-strict_key :
    (u v i j : String)
    → has_colon i ≡ false
    → has_colon j ≡ false
    → str_eq i j ≡ false
    → str_eq (strict_key u i) (strict_key v j) ≡ false
strict_key-strict_key u v i j ci cj other = differ (strict_key u i) (strict_key v j) (λ same.
    let tail = append_cancel_left "dreamweaver:session:" _ _ same in
    let left : last_part (String.◌++◌ u (String.◌++◌ ":" i)) ≡ i =
      rw (colon_append i) (last_part-append u i ci) in
    let right : last_part (String.◌++◌ v (String.◌++◌ ":" j)) ≡ j =
      rw (colon_append j) (last_part-append v j cj) in
    let e : i ≡ j = sym left ∙ (ap last_part tail ∙ right) in
    absurd (ground (arith, eq_iff i j, e)))

pub strict_key-legacy_key :
    (u i j : String) → has_colon j ≡ false → str_eq (strict_key u i) (legacy_key j) ≡ false
strict_key-legacy_key u i j cj = differ (strict_key u i) (legacy_key j) (λ same.
    let tail = append_cancel_left "dreamweaver:session:" _ _ same in
    let e : has_colon j ≡ true =
      ap has_colon (sym tail) ∙ rw (colon_append i) (has_colon-append u i) in
    cc (e, cj))

pub lookup_key-lookup_key :
    (i j : String) → str_eq i j ≡ false → str_eq (lookup_key i) (lookup_key j) ≡ false
lookup_key-lookup_key i j other = differ (lookup_key i) (lookup_key j) (λ same.
    let e : i ≡ j = append_cancel_left "dreamweaver:lookup:" i j same in
    absurd (ground (arith, eq_iff i j, e)))

-- The key of a session of a user is the legacy key of another identifier.
pub legacy_key-strict_key :
    (u i : String) → legacy_key (String.◌++◌ u (String.◌++◌ ":" i)) ≡ strict_key u i
legacy_key-strict_key u i = refl

pub plain-strict :
    (u i : String) → has_colon i ≡ false → str_eq i (String.◌++◌ u (String.◌++◌ ":" i)) ≡ false
plain-strict u i plain = differ i (String.◌++◌ u (String.◌++◌ ":" i)) (λ same.
    let e : has_colon i ≡ true = ap has_colon same ∙ rw (colon_append i) (has_colon-append u i) in
    cc (e, plain))
