-- ===== src/Session/Store/TimeTravel.antt =====
-- What `rollback` restores.
use dreamweaver.Prelude.{
  ℕ, zero, suc, ◌<◌, String, Option, none, some, List, [], ◌∷◌, ◌++◌, ◌≡◌, refl, sym, ap, arith,
  length, length-append, or_else, lookup, insert, if◌then◌else◌, str_eq, lookup-insert,
  lookup-insert_self, eq_refl, ◌∙◌,
}
use mathlib.Core.List.{append_assoc}
use dreamweaver.Session.{Snapshot, SessionState, Patch}
use dreamweaver.Session.Store.{
  Store, trimmed, merged, replace, set, patch, pop, pop_steps, restored, stamp, rollback_found,
  rollback,
}
use dreamweaver.Session.Store.Bounds.{patch-eq-some, length-pop}

pub pop-concat {ℓ} : {A : Type ℓ} (xs : List A) (x : A) → pop (xs ++ x ∷ []) ≡ (some x, xs)
pop-concat [] x = refl
pop-concat (y ∷ []) x = refl
pop-concat (y ∷ z ∷ xs) x = rw (pop-concat (z ∷ xs) x)

pop_steps-concat :
    (n : ℕ) (t : Option Snapshot) (xs : List Snapshot) (x : Snapshot)
    → pop_steps (suc n) t (xs ++ x ∷ []) ≡ pop_steps n (some x) xs
unfolding pop_steps
pop_steps-concat n t [] x = refl
pop_steps-concat n t (y ∷ xs) x = rw (pop-concat (y ∷ xs) x)

-- A list is empty or ends with an item.
pub data Ending : List Snapshot → Type 0 where
  empty : Ending []
  ends : (xs : List Snapshot) (x : Snapshot) → Ending (xs ++ x ∷ [])

pub ending : (xs : List Snapshot) → Ending xs
ending [] = empty
ending (x ∷ xs) = elim (ending xs) as (λ ys e. Ending (x ∷ ys)) [
  | empty ↦ ends [] x
  | ends ys y ↦ ends (x ∷ ys) y
]

-- As many steps as there are newer snapshots, and one more, pop the target itself.
pub pop_steps-target :
    (n : ℕ) (t : Option Snapshot) (older newer : List Snapshot) (target : Snapshot)
    → length newer ≡ n
    → pop_steps (suc n) t (older ++ target ∷ newer) ≡ (some target, older)
unfolding pop_steps
pop_steps-target zero t older [] target e = pop_steps-concat zero t older target
pop_steps-target zero t older (x ∷ newer) target e = absurd (omega arith)
pop_steps-target (suc n) t older newer target e =
    go newer (ending newer) e (λ xs x q. pop_steps-target n (some x) older xs target q)
  where
    go :
        (ys : List Snapshot)
        → Ending ys
        → length ys ≡ suc n
        → ((xs : List Snapshot) (x : Snapshot)
            → length xs ≡ n
            → pop_steps (suc n) (some x) (older ++ target ∷ xs) ≡ (some target, older))
        → pop_steps (suc (suc n)) t (older ++ target ∷ ys) ≡ (some target, older)
    go ys empty h ih = absurd (omega arith)
    go ys (ends xs x) h ih = rw (← append_assoc older (target ∷ xs) (x ∷ [])) (
        pop_steps-concat (suc n) t (older ++ target ∷ xs) x
        ∙ ih xs x (omega (arith, length-append {0} xs (x ∷ []))))

-- With more steps than snapshots the loop ends without a target.
pop_steps-beyond :
    (n : ℕ) (t : Option Snapshot) (h : List Snapshot) → length h < n → pop_steps n t h ≡ (none, [])
unfolding pop_steps
pop_steps-beyond zero t h e = absurd (omega arith)
pop_steps-beyond (suc n) t [] e = refl
pop_steps-beyond (suc n) t (x ∷ xs) e =
    pop_steps-beyond n (pop (x ∷ xs)).0 (pop (x ∷ xs)).1 (omega (arith, length-pop x xs))

rollback-found :
    (now : ℕ) (id : String) (steps : ℕ) (store : Store) (current : SessionState)
    → lookup id store ≡ some current
    → rollback now id steps store ≡ rollback_found now id steps store current
unfolding rollback
rollback-found now id steps store current e = rw e

rollback_found-target :
    (now : ℕ) (id : String) (store : Store) (current : SessionState) (older newer : List Snapshot)
    (target : Snapshot)
    → current.history ≡ some (older ++ target ∷ newer)
    → rollback_found now id (suc (length newer)) store current
      ≡ insert id (record { snapshot = stamp now target; history = some older }) store
unfolding rollback_found restored
rollback_found-target now id store current older newer target h =
    rw (h, pop_steps-target (length newer) none older newer target refl)
      (ground (arith, length-append {0} older (target ∷ newer)))

-- Going back by as many steps as there are snapshots from the target to the newest restores the
-- target, stamped with the time of the call, with the snapshots before it as its history; the
-- other sessions are as they were.
pub rollback_restores :
    (now : ℕ) (id j : String) (store : Store) (current : SessionState) (older newer : List Snapshot)
    (target : Snapshot)
    → lookup id store ≡ some current
    → current.history ≡ some (older ++ target ∷ newer)
    → lookup j (rollback now id (suc (length newer)) store) ≡ (
        if str_eq id j
        then some (record { snapshot = stamp now target; history = some older })
        else lookup j store)
rollback_restores now id j store current older newer target found h =
    rw (rollback-found now id (suc (length newer)) store current found) (
      rw (rollback_found-target now id store current older newer target h)
        (lookup-insert id j _ store))

-- Going back by more steps than there are snapshots changes nothing.
pub rollback_too_far :
    (now : ℕ) (id : String) (steps : ℕ) (store : Store) (current : SessionState)
    → lookup id store ≡ some current
    → length (or_else current.history []) < steps
    → rollback now id steps store ≡ store
unfolding rollback_found restored
rollback_too_far now id steps store current found h =
    rollback-found now id steps store current found
    ∙ rw (pop_steps-beyond steps none (or_else current.history []) h) (ground arith)

pub lookup-set :
    (now : ℕ) (id : String) (state : SessionState) (store : Store)
    → lookup id (set now id state store) ≡ some (replace now (lookup id store) state)
unfolding set
lookup-set now id state store = lookup-insert_self id _ store

replace-history :
    (now : ℕ) (previous state : SessionState)
    → (replace now (some previous) state).history
      ≡ some (trimmed previous ++ previous.snapshot ∷ [])
unfolding replace
replace-history now previous state = refl

-- One step back after any write over a stored session gives the session as it was before the write,
-- but for the time stamp and for the oldest step of a full history.
pub rollback-set :
    (now later : ℕ) (id : String) (state : SessionState) (store : Store) (current : SessionState)
    → lookup id store ≡ some current
    → lookup id (rollback later id 1 (set now id state store))
      ≡ some (record { snapshot = stamp later current.snapshot; history = some (trimmed current) })
rollback-set now later id state store current found =
    let written : lookup id (set now id state store) ≡ some (replace now (some current) state) =
      lookup-set now id state store ∙ ap (λ o. some (replace now o state)) found in
    rollback_restores later id id (set now id state store) (replace now (some current) state)
      (trimmed current) [] current.snapshot written (replace-history now current state)
    ∙ rw eq_refl

-- One step back after a patch that was accepted restores the session as it was before the patch,
-- stamped with the time of the step; its history is the one before, less the oldest step if
-- there were ten.
pub rollback-patch :
    (now later : ℕ) (id : String) (p : Patch) (store : Store) {store' : Store}
    → patch now id p store ≡ some store'
    → (current : SessionState) × (lookup id store ≡ some current)
      × (lookup id (rollback later id 1 store')
          ≡ some (record {
            snapshot = stamp later current.snapshot;
            history = some (trimmed current);
          }))
rollback-patch now later id p store patched =
    let (current, found, written) = patch-eq-some now id p store patched in
    (
      current,
      found,
      ap (λ w. lookup id (rollback later id 1 w)) (sym written)
          ∙ rollback-set now later id (merged current p) store current found,
    )
