-- ===== src/Session/Store/Bounds.antt =====
-- The history of every stored session stays within ten steps.
use dreamweaver.Prelude.{
  ℕ, zero, suc, ◌≤◌, ◌+◌, String, Option, none, some, List, [], ◌∷◌, ◌≡◌, refl, inl, inr,
  Bool-cases, Option-cases, arith, length, length-append, or_else, lookup, AllValues,
  AllValues-insert, AllValues-erase, AllValues-lookup, leb, ◌==◌,
}
use dreamweaver.Session.{Snapshot, SessionState, Patch}
use dreamweaver.Session.Store.{
  Store, shift, recorded, merged, patch_found, set, patch, pop, pop_steps, restored, write_back,
  rollback_found, rollback, delete,
}

abbrev pub IsBounded : SessionState → Type 0
IsBounded s = length (or_else s.history []) ≤ 10

abbrev pub IsBoundedStore : Store → Type 0
IsBoundedStore = AllValues IsBounded

length-shift_le : (xs : List Snapshot) (n : ℕ) → length xs ≤ n + 1 → length (shift xs) ≤ n
length-shift_le [] n h = omega arith
length-shift_le (x ∷ xs) n h = omega arith

length-recorded : (s : SessionState) → IsBounded s → length (recorded s) ≤ 10
unfolding recorded
length-recorded s h = elim (Bool-cases (leb 10 (length (or_else s.history [])))) [
  | inl full ↦ rw full (
      omega (
        arith,
        length-append {0} (shift (or_else s.history [])) (s.snapshot ∷ []),
        length-shift_le (or_else s.history []) 9 h,
      ))
  | inr room ↦ rw room (ground (arith, length-append {0} (or_else s.history []) (s.snapshot ∷ [])))
]

-- Writing a state whose own history is within the bound keeps every session within it.
pub set-IsBoundedStore :
    (now : ℕ) (id : String) (state : SessionState) (store : Store)
    → IsBounded state
    → IsBoundedStore store
    → IsBoundedStore (set now id state store)
unfolding set
set-IsBoundedStore now id state store h k = elim (Option-cases (lookup id store)) [
  | inl e ↦ rw e (AllValues-insert IsBounded id _ store h k)
  | inr (p, e) ↦ rw e (
      AllValues-insert IsBounded id _ store
        (length-recorded p (AllValues-lookup IsBounded id store k e)) k)
]

patch_found-eq-some :
    (now : ℕ) (id : String) (p : Patch) (store : Store) (o : Option SessionState) {store' : Store}
    → patch_found now id p store o ≡ some store'
    → (current : SessionState) × (o ≡ some current) × (set now id (merged current p) store ≡ store')
unfolding patch_found
patch_found-eq-some now id p store none e = cc
patch_found-eq-some now id p store (some current) e = (current, refl, cc)

-- A patch that is accepted is a write of the merged state over the one found.
pub patch-eq-some :
    (now : ℕ) (id : String) (p : Patch) (store : Store) {store' : Store}
    → patch now id p store ≡ some store'
    → (current : SessionState) × (lookup id store ≡ some current)
      × (set now id (merged current p) store ≡ store')
unfolding patch
patch-eq-some now id p store e = patch_found-eq-some now id p store (lookup id store) e

-- If no session of a store has more than ten steps of history, a patch of one of them keeps it so.
pub patch-IsBoundedStore :
    (now : ℕ) (id : String) (p : Patch) (store : Store) {store' : Store}
    → IsBoundedStore store
    → patch now id p store ≡ some store'
    → IsBoundedStore store'
unfolding merged
patch-IsBoundedStore now id p store k e =
    let (current, found, written) = patch-eq-some now id p store e in
    rw (← written) (
      set-IsBoundedStore now id (merged current p) store
        (AllValues-lookup IsBounded id store k found) k)

pub length-pop : (x : Snapshot) (xs : List Snapshot) → length (pop (x ∷ xs)).1 ≡ length xs
length-pop x [] = refl
length-pop x (y ∷ ys) = omega (arith, length-pop y ys)

length-pop_steps :
    (n : ℕ) (t : Option Snapshot) (h : List Snapshot) → length (pop_steps n t h).1 ≤ length h
unfolding pop_steps
length-pop_steps zero t h = omega arith
length-pop_steps (suc n) t [] = omega arith
length-pop_steps (suc n) t (x ∷ xs) =
    omega (arith, length-pop x xs, length-pop_steps n (pop (x ∷ xs)).0 (pop (x ∷ xs)).1)

restored-IsBounded :
    (now steps : ℕ) (current : SessionState) {state : SessionState}
    → IsBounded current
    → restored now steps current ≡ some state
    → IsBounded state
unfolding restored
restored-IsBounded now steps current h e =
    ground (arith, length-pop_steps steps none (or_else current.history []))

write_back-IsBoundedStore :
    (id : String) (store : Store) (o : Option SessionState)
    → ((state : SessionState) → o ≡ some state → IsBounded state)
    → IsBoundedStore store
    → IsBoundedStore (write_back id store o)
write_back-IsBoundedStore id store none h k = k
write_back-IsBoundedStore id store (some state) h k =
    AllValues-insert IsBounded id state store (h state refl) k

rollback_found-IsBoundedStore :
    (now : ℕ) (id : String) (steps : ℕ) (store : Store) (current : SessionState)
    → IsBounded current
    → IsBoundedStore store
    → IsBoundedStore (rollback_found now id steps store current)
unfolding rollback_found
rollback_found-IsBoundedStore now id steps store current h k =
    elim (Bool-cases (length (or_else current.history []) == 0)) [
      | inl e ↦ rw e k
      | inr e ↦ rw e (
          write_back-IsBoundedStore id store (restored now steps current)
            (λ state found. restored-IsBounded now steps current h found) k)
    ]

pub rollback-IsBoundedStore :
    (now : ℕ) (id : String) (steps : ℕ) (store : Store)
    → IsBoundedStore store
    → IsBoundedStore (rollback now id steps store)
unfolding rollback
rollback-IsBoundedStore now id steps store k = elim (Option-cases (lookup id store)) [
  | inl e ↦ rw e k
  | inr (current, e) ↦ rw e (
      rollback_found-IsBoundedStore now id steps store current
        (AllValues-lookup IsBounded id store k e) k)
]

pub delete-IsBoundedStore :
    (id : String) (store : Store) → IsBoundedStore store → IsBoundedStore (delete id store)
unfolding delete
delete-IsBoundedStore id store k = AllValues-erase IsBounded id store k
