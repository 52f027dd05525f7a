-- ===== src/Conductor/Phases/Opening.antt =====
-- The store keeps to sessions that are awake, whatever the conductor opens and writes.
use dreamweaver.Prelude.{
  ℕ, String, Option, none, some, Bool, true, false, List, ◌≡◌, refl, inl, Dict, lookup, AllValues,
  AllValues-insert, AllValues-lookup,
}
use dreamweaver.Goal.{Goal}
use dreamweaver.Thought.Reach.{IsEarly}
use dreamweaver.Session.{Snapshot, SessionState}
use dreamweaver.Session.Store
use dreamweaver.Session.Store.{replace}
use dreamweaver.Conductor.{
  Opened, assign, fresh_state, migrate, open_found, get_or_init_state, commit,
}
use dreamweaver.Conductor.Stores.{in_memory}

abbrev pub IsAwake : SessionState → Type 0
IsAwake s = IsEarly s.phase

abbrev pub AllAwake : Dict SessionState → Type 0
AllAwake = AllValues IsAwake

pub set-AllAwake :
    (now : ℕ) (id : String) (state : SessionState) (store : Dict SessionState)
    → IsAwake state
    → AllAwake store
    → AllAwake (Store.set now id state store)
unfolding Store.set
set-AllAwake now id state store h k =
    AllValues-insert IsAwake id _ store (stamped (lookup id store)) k
  where
    stamped : (o : Option SessionState) → IsAwake (replace now o state)
    stamped none = unfold replace Store.stamp in h
    stamped (some p) = unfold replace Store.stamp in h

pub assign-AllAwake :
    (b : Bool) (id : String) (state : SessionState) (store : Dict SessionState)
    → IsAwake state
    → AllAwake store
    → AllAwake (assign in_memory b id state store)
assign-AllAwake true id state store h k = AllValues-insert IsAwake id state store h k
assign-AllAwake false id state store h k = k

-- A state that is opened is awake, and so are all in the store then.
abbrev pub IsOpenedAwake : Opened (Dict SessionState) → Type 0
IsOpenedAwake o = IsAwake o.state × AllAwake o.store

pub migrate-awake :
    (gs : Option (List Goal)) (g : Option Goal) (now : ℕ) (id : String) (state : SessionState)
    (store : Dict SessionState)
    → IsAwake state
    → AllAwake store
    → IsOpenedAwake (migrate in_memory gs g now id state store)
migrate-awake none (some g) now id state store h k =
    (h, set-AllAwake now id _ _ h (assign-AllAwake true id _ store h k))
migrate-awake none none now id state store h k = (h, k)
migrate-awake (some gs) g now id state store h k = (h, k)

pub open_found-awake :
    (o : Option SessionState) (now : ℕ) (id user : String) (store : Dict SessionState)
    → ((s : SessionState) → o ≡ some s → IsAwake s)
    → AllAwake store
    → IsOpenedAwake (open_found in_memory o now id user store)
open_found-awake none now id user store h k =
    (inl refl, set-AllAwake now id (fresh_state now id user) store (inl refl) k)
open_found-awake (some s) now id user store h k =
    migrate-awake s.active_goals s.active_goal now id s store (h s refl) k

pub opened-awake :
    (now : ℕ) (id user : String) (store : Dict SessionState)
    → AllAwake store
    → IsOpenedAwake (get_or_init_state in_memory now id user store)
unfolding get_or_init_state Store.get
opened-awake now id user store k =
    open_found-awake (lookup id store) now id user store
      (λ s e. AllValues-lookup IsAwake id store k e) k

pub commit-AllAwake :
    (now : ℕ) (id : String) (o : Opened (Dict SessionState)) (s : Snapshot)
    → IsEarly s.phase
    → AllAwake o.store
    → AllAwake (commit in_memory now id o s)
unfolding commit
commit-AllAwake now id o s h k =
    set-AllAwake now id _ _ h (assign-AllAwake o.shared id _ o.store h k)
