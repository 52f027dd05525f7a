-- ===== src/Session/Store.antt =====
-- The volatile store (api/src/infrastructure/adapters/InMemorySessionState.ts). `now` is the time
-- that `new Date()` returns in the call.
pub mod Bounds
pub mod TimeTravel
use dreamweaver.Prelude.{
  ℕ, zero, suc, String, Option, none, some, List, [], ◌∷◌, ◌++◌, Dict, lookup, insert, erase, leb,
  ◌==◌, length, or_else, if◌then◌else◌,
}
use dreamweaver.Session.{Snapshot, SessionState, Patch, merge}

abbrev pub Store : Type 0
Store = Dict SessionState

-- `shift`
abbrev pub shift {ℓ} : {A : Type ℓ} → List A → List A
shift [] = []
shift (x ∷ xs) = xs

-- The history of a replaced state, made short enough for one more step: at most nine steps.
unfoldable pub trimmed : SessionState → List Snapshot
trimmed previous =
    let history = or_else previous.history [] in
    if leb 10 (length history) then shift history else history

-- The history that `set` gives to the new state: the last step is the state that is replaced.
unfoldable pub recorded : SessionState → List Snapshot
unfolding trimmed
recorded previous = trimmed previous ++ previous.snapshot ∷ []

unfoldable pub get : String → Store → Option SessionState
get id store = lookup id store

unfoldable pub stamp : ℕ → Snapshot → Snapshot
stamp now s = record s { updated_at = now }

-- The state that `set` writes over `previous`.
unfoldable pub replace : ℕ → Option SessionState → SessionState → SessionState
unfolding recorded stamp
replace now none state = record { snapshot = stamp now state.snapshot; history = state.history }
replace now (some previous) state = record {
  snapshot = stamp now state.snapshot;
  history = some (recorded previous);
}

unfoldable pub set : ℕ → String → SessionState → Store → Store
unfolding replace
set now id state store = insert id (replace now (lookup id store) state) store

-- `{ ...current, ...partial }`, with the history of `current`.
unfoldable pub merged : SessionState → Patch → SessionState
unfolding merge
merged current partial = record {
  snapshot = merge current.snapshot partial;
  history = current.history;
}

patch_found : ℕ → String → Patch → Store → Option SessionState → Option Store
patch_found now id partial store none = none
patch_found now id partial store (some current) = some (set now id (merged current partial) store)

-- `none` is the exception for a session that is not there.
unfoldable pub patch : ℕ → String → Patch → Store → Option Store
unfolding patch_found get
patch now id partial store = patch_found now id partial store (get id store)

-- `pop`: the last item, and what is left.
abbrev pub pop {ℓ} : {A : Type ℓ} → List A → Option A × List A
pop [] = (none, [])
pop (x ∷ []) = (some x, [])
pop (x ∷ y ∷ xs) = let (last, rest) = pop (y ∷ xs) in (last, x ∷ rest)

-- The loop of `rollback`: it stops early, with no target, where the history is used up.
unfoldable pub pop_steps : ℕ → Option Snapshot → List Snapshot → Option Snapshot × List Snapshot
pop_steps zero target history = (target, history)
pop_steps (suc steps) target [] = (none, [])
pop_steps (suc steps) target (x ∷ xs) = let (last, rest) = pop (x ∷ xs) in pop_steps steps last rest

abbrev settle : ℕ → Option Snapshot × List Snapshot → Option SessionState
settle now (none, rest) = none
settle now (some target, rest) = some (record { snapshot = stamp now target; history = some rest })

-- The state that `rollback` restores, if any.
unfoldable pub restored : ℕ → ℕ → SessionState → Option SessionState
unfolding pop_steps stamp
restored now steps current = settle now (pop_steps steps none (or_else current.history []))

abbrev write_back : String → Store → Option SessionState → Store
write_back id store none = store
write_back id store (some state) = insert id state store

-- A session with no history is left alone.
unfoldable pub rollback_found : ℕ → String → ℕ → Store → SessionState → Store
unfolding restored
rollback_found now id steps store current =
    if length (or_else current.history []) == 0
    then store
    else write_back id store (restored now steps current)

abbrev rollback_in : ℕ → String → ℕ → Store → Option SessionState → Store
rollback_in now id steps store none = store
rollback_in now id steps store (some current) = rollback_found now id steps store current

unfoldable pub rollback : ℕ → String → ℕ → Store → Store
rollback now id steps store = rollback_in now id steps store (lookup id store)

unfoldable pub delete : String → Store → Store
delete id store = erase id store
