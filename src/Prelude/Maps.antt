-- ===== src/Prelude/Maps.antt =====
-- `Map<string, V>` as an association list in insertion order: a write to a present key keeps its
-- place, a new key goes to the end.
use Prim.Native.Nat.{◌+◌, ◌≤◌}
use Prim.Native.String.{String}
use mathlib.Core.Path.{◌≡◌, refl}
use mathlib.Core.Bool.{Bool, true}
use mathlib.Core.Option.{Option, none, some}
use mathlib.Core.List.{List, [], ◌∷◌, ◌++◌}
use native.Mathlib.Omega.{arith}
use text.Mathlib.TextEquality.{eq_iff}
use text.Mathlib.TextPositions.{eq_refl}
use mathlib.Core.Path.{subst}
use mathlib.Core.Logic.{inl, inr}
use dreamweaver.Prelude.Tests.{str_eq, if◌then◌else◌, Bool-cases}
use dreamweaver.Prelude.Lists.{length, any}

-- A set of texts in the order of insertion: `Set.add` and `Set.delete`.
abbrev pub add : String → List String → List String
add h hs = if any (str_eq h) hs then hs else hs ++ h ∷ []

abbrev pub remove : String → List String → List String
remove h [] = []
remove h (g ∷ gs) = let rest = remove h gs in if str_eq h g then rest else g ∷ rest

abbrev pub Dict {ℓ} : Type ℓ → Type ℓ
Dict V = List (String × V)

module _ {ℓ} {V : Type ℓ} where
  unfoldable pub lookup : String → Dict V → Option V
  lookup k [] = none
  lookup k ((j, v) ∷ m) = if str_eq j k then some v else lookup k m

  unfoldable pub insert : String → V → Dict V → Dict V
  insert k v [] = (k, v) ∷ []
  insert k v ((j, w) ∷ m) = if str_eq j k then (k, v) ∷ m else (j, w) ∷ insert k v m

  unfoldable pub erase : String → Dict V → Dict V
  erase k [] = []
  erase k ((j, v) ∷ m) = let rest = erase k m in if str_eq j k then rest else (j, v) ∷ rest

  -- Keeps the entries whose key and value pass the test.
  unfoldable pub keep : (String → V → Bool) → Dict V → Dict V
  keep p [] = []
  keep p ((j, v) ∷ m) = let rest = keep p m in if p j v then (j, v) ∷ rest else rest

  pub lookup-insert :
      (written read : String) (value : V) (dict : Dict V)
      → lookup read (insert written value dict)
        ≡ (if str_eq written read then some value else lookup read dict)
  unfolding lookup insert
  lookup-insert written read value [] = refl
  lookup-insert written read value ((key, old) ∷ rest) =
      let further = lookup-insert written read value rest in
      ground (arith, further, eq_iff key read, eq_iff key written, eq_iff written read)

  pub lookup-insert_self : (k : String) (v : V) (m : Dict V) → lookup k (insert k v m) ≡ some v
  lookup-insert_self k v m = simp (lookup-insert, eq_refl)

  pub lookup-erase :
      (k j : String) (m : Dict V) → lookup j (erase k m) ≡ (if str_eq k j then none else lookup j m)
  unfolding lookup erase
  lookup-erase k j [] = ground arith
  lookup-erase k j ((i, w) ∷ m) =
      ground (arith, eq_iff k j, eq_iff i k, eq_iff i j, lookup-erase k j m)

  pub lookup-erase_self : (k : String) (m : Dict V) → lookup k (erase k m) ≡ none
  lookup-erase_self k m = simp (lookup-erase, eq_refl)

  -- An entry that passes the test is there afterwards, and one that was not there is not.
  pub lookup-keep :
      (p : String → V → Bool) (k : String) (m : Dict V) (v : V)
      → lookup k m ≡ some v
      → p k v ≡ true
      → lookup k (keep p m) ≡ some v
  unfolding lookup keep
  lookup-keep p k [] v e h = e
  lookup-keep p k ((j, w) ∷ m) v e h = ground (arith, eq_iff j k, lookup-keep p k m v)

  pub lookup-keep-none :
      (p : String → V → Bool) (k : String) (m : Dict V)
      → lookup k m ≡ none
      → lookup k (keep p m) ≡ none
  unfolding lookup keep
  lookup-keep-none p k [] e = e
  lookup-keep-none p k ((j, w) ∷ m) e = ground (arith, lookup-keep-none p k m)

  pub length-insert : (k : String) (v : V) (m : Dict V) → length (insert k v m) ≤ length m + 1
  unfolding insert
  length-insert k v [] = omega arith
  length-insert k v ((j, w) ∷ m) = ground (arith, length-insert k v m)

-- What holds of every value of a dictionary.
module _ {ℓ κ} {V : Type ℓ} (P : V → Type κ) where
  abbrev pub AllValues : Dict V → Type κ
  AllValues [] = Unit
  AllValues ((j, v) ∷ m) = P v × AllValues m

  pub AllValues-insert :
      (k : String) (v : V) (m : Dict V) → P v → AllValues m → AllValues (insert k v m)
  unfolding insert
  AllValues-insert k v [] p h = (p, tt)
  AllValues-insert k v ((j, w) ∷ m) p (q, h) = elim (Bool-cases (str_eq j k)) [
    | inl e ↦ rw e (p, h)
    | inr e ↦ rw e (q, AllValues-insert k v m p h)
  ]

  pub AllValues-erase : (k : String) (m : Dict V) → AllValues m → AllValues (erase k m)
  unfolding erase
  AllValues-erase k [] h = tt
  AllValues-erase k ((j, w) ∷ m) (q, h) = elim (Bool-cases (str_eq j k)) [
    | inl e ↦ rw e (AllValues-erase k m h)
    | inr e ↦ rw e (q, AllValues-erase k m h)
  ]

  pub AllValues-lookup : (k : String) (m : Dict V) {v : V} → AllValues m → lookup k m ≡ some v → P v
  unfolding lookup
  AllValues-lookup k [] h e = absurd (cc)
  AllValues-lookup k ((j, w) ∷ m) {v} (q, h) e = elim (Bool-cases (str_eq j k)) [
    | inl t ↦ let same : w ≡ v = ground arith in subst P same q
    | inr t ↦ AllValues-lookup k m h (let rest : lookup k m ≡ some v = ground arith in rest)
  ]
