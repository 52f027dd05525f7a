-- ===== src/Session/Agreement.antt =====
-- The volatile store (InMemorySessionState.ts) beside the Redis scripts (RedisSessionState.ts): both
-- implement the same port.
use dreamweaver.Prelude.{
  ℕ, zero, suc, ◌+◌, ◌<◌, String, Option, none, some, List, [], ◌∷◌, ◌++◌, ◌≡◌, ◌≢◌, refl, arith,
  length, length-append, or_else, lookup, ◌∙◌, Bool-cases, inl, inr, leb, ltb, if◌then◌else◌,
}
use mathlib.Core.List.{append_assoc}
use dreamweaver.Session.{Snapshot, SessionState, Patch, merge}
use dreamweaver.Session.Store.{Store, shift, recorded, merged, replace, restored, stamp, rollback}
use dreamweaver.Session.Store.TimeTravel.{
  pop_steps-target, Ending, empty, ends, ending, pop-concat, rollback_too_far,
}
use dreamweaver.Session.Lua.{
  push_history, update_script, over, merge_json, patch_script, remove_steps, rollback_script,
}

shift-append :
    (xs : List Snapshot) (x : Snapshot) → 0 < length xs → shift (xs ++ x ∷ []) ≡ shift xs ++ x ∷ []
shift-append [] x h = absurd (omega arith)
shift-append (y ∷ xs) x h = refl

push_history_lem : (s : SessionState) → push_history 10 s ≡ recorded s
unfolding push_history recorded
push_history_lem s = go (or_else s.history [])
  where
    go :
        (h : List Snapshot)
        → (if ltb 10 (length (h ++ s.snapshot ∷ []))
            then shift (h ++ s.snapshot ∷ [])
            else h ++ s.snapshot ∷ [])
          ≡ (if leb 10 (length h) then shift h else h) ++ s.snapshot ∷ []
    go h = elim (Bool-cases (leb 10 (length h))) [
      | inl full ↦
          rw full (ground (arith, length-append {0} h (s.snapshot ∷ []), shift-append h s.snapshot))
      | inr room ↦ rw room (ground (arith, length-append {0} h (s.snapshot ∷ [])))
    ]

-- Both stores write the same session over a session that is there, whatever the histories; where
-- none is there they do so if the new state comes without a history of its own.
pub update_script-replace :
    (now : ℕ) (previous : Option SessionState) (state : SessionState)
    → (previous ≡ none → state.history ≡ none)
    → update_script 10 previous (stamp now state.snapshot) ≡ replace now previous state
unfolding update_script replace
update_script-replace now none state h = ground (arith, h refl)
update_script-replace now (some p) state h = rw (push_history_lem p)

over-defined {ℓ} :
    {A : Type ℓ} (p : Option (Option A)) (old : Option A)
    → p ≢ some none
    → over p old ≡ or_else p old
over-defined none old h = refl
over-defined (some none) old h = absurd (h refl)
over-defined (some (some a)) old h = refl

-- The patch has no key with the value `undefined`.
pub record IsDefined (p : Patch) : Type 0 where
  pub goal : p.active_goal ≢ some none
  pub goals : p.active_goals ≢ some none
  pub start : p.session_start_time ≢ some none
  pub theme : p.last_suggested_theme ≢ some none
  pub moment : p.last_moment_timestamp ≢ some none

merge_json-merge :
    (now : ℕ) (s : Snapshot) (p : Patch) → IsDefined p → merge_json now s p ≡ stamp now (merge s p)
unfolding merge_json merge stamp
merge_json-merge now s p d = rw (
  over-defined p.active_goal s.active_goal d.goal,
  over-defined p.active_goals s.active_goals d.goals,
  over-defined p.session_start_time s.session_start_time d.start,
  over-defined p.last_suggested_theme s.last_suggested_theme d.theme,
  over-defined p.last_moment_timestamp s.last_moment_timestamp d.moment,
)

-- For a session that is there, the patch script of Redis writes what the patch of the volatile
-- store writes, if no key of the patch has the value `undefined`.
pub patch_script-replace :
    (now : ℕ) (current : SessionState) (p : Patch)
    → IsDefined p
    → patch_script 10 now (some current) p ≡ some (replace now (some current) (merged current p))
unfolding patch_script replace merged
patch_script-replace now current p d =
    rw (push_history_lem current, merge_json-merge now current.snapshot p d)

remove_steps-concat :
    (n : ℕ) (t : Option Snapshot) (xs : List Snapshot) (y : Snapshot)
    → 0 < length xs
    → remove_steps (suc n) t (xs ++ y ∷ []) ≡ remove_steps n (some y) xs
unfolding remove_steps
remove_steps-concat n t [] y h = absurd (omega arith)
remove_steps-concat n t (x ∷ xs) y h =
    rw (pop-concat (x ∷ xs) y, remove_steps) (rw (pop-concat (x ∷ xs) y))

remove_steps-target :
    (n : ℕ) (t : Option Snapshot) (older newer : List Snapshot) (target : Snapshot)
    → length newer ≡ n
    → remove_steps (suc n) t (older ++ target ∷ newer) ≡ (some target, older)
unfolding remove_steps
remove_steps-target zero t [] [] target e = refl
remove_steps-target zero t (o ∷ os) [] target e =
    remove_steps-concat zero t (o ∷ os) target (omega arith)
remove_steps-target zero t older (x ∷ newer) target e = absurd (omega arith)
remove_steps-target (suc n) t older newer target e =
    go newer (ending newer) e (λ xs x q. remove_steps-target n (some x) older xs target q)
  where
    go :
        (ys : List Snapshot)
        → Ending ys
        → length ys ≡ suc n
        → ((xs : List Snapshot) (x : Snapshot)
            → length xs ≡ n
            → remove_steps (suc n) (some x) (older ++ target ∷ xs) ≡ (some target, older))
        → remove_steps (suc (suc n)) t (older ++ target ∷ ys) ≡ (some target, older)
    go ys empty h ih = absurd (omega arith)
    go ys (ends xs x) h ih = rw (← append_assoc older (target ∷ xs) (x ∷ [])) (
        remove_steps-concat (suc n) t (older ++ target ∷ xs) x
          (omega (arith, length-append {0} older (target ∷ xs)))
        ∙ ih xs x (omega (arith, length-append {0} xs (x ∷ []))))

-- With at least as many steps as snapshots the script ends at the oldest one.
remove_steps-beyond :
    (n : ℕ) (t : Option Snapshot) (x : Snapshot) (xs : List Snapshot)
    → length xs < n
    → remove_steps n t (x ∷ xs) ≡ (some x, [])
unfolding remove_steps
remove_steps-beyond zero t x xs h = absurd (omega arith)
remove_steps-beyond (suc n) t x xs h =
    go xs (ending xs) h (λ ys y q. remove_steps-beyond n (some y) x ys q)
  where
    go :
        (zs : List Snapshot)
        → Ending zs
        → length zs < suc n
        → ((ys : List Snapshot) (y : Snapshot)
            → length ys < n
            → remove_steps n (some y) (x ∷ ys) ≡ (some x, []))
        → remove_steps (suc n) t (x ∷ zs) ≡ (some x, [])
    go zs empty q ih = refl
    go zs (ends ys y) q ih =
        remove_steps-concat n t (x ∷ ys) y (omega arith)
        ∙ ih ys y (omega (arith, length-append {0} ys (y ∷ [])))

-- Where a session has enough history, the script of Redis restores the snapshot that the
-- volatile store restores, with the same history; the script keeps the time stamp, the store
-- renews it.
pub rollback_script-restored :
    (now : ℕ) (current : SessionState) (older newer : List Snapshot) (target : Snapshot)
    → current.history ≡ some (older ++ target ∷ newer)
    → (rollback_script (suc (length newer)) (some current)
        ≡ some (record { snapshot = stamp current.updated_at target; history = some older }))
      × (restored now (suc (length newer)) current
          ≡ some (record { snapshot = stamp now target; history = some older }))
unfolding rollback_script restored stamp
rollback_script-restored now current older newer target h = (
  rw (h, remove_steps-target (length newer) none older newer target refl)
      (ground (arith, length-append {0} older (target ∷ newer))),
  rw (h, pop_steps-target (length newer) none older newer target refl),
)

-- If a session has history, but less than the number of steps to go back, the two stores differ:
-- the volatile store stays as it is, and the script of Redis restores the oldest snapshot, with
-- an empty history.
pub rollback_divergence :
    (now : ℕ) (id : String) (steps : ℕ) (store : Store) (current : SessionState) (oldest : Snapshot)
    (newer : List Snapshot)
    → lookup id store ≡ some current
    → current.history ≡ some (oldest ∷ newer)
    → length newer + 1 < steps
    → (rollback now id steps store ≡ store)
      × (rollback_script steps (some current)
          ≡ some (record { snapshot = stamp current.updated_at oldest; history = some [] }))
unfolding rollback_script stamp
rollback_divergence now id steps store current oldest newer found h many = (
  rollback_too_far now id steps store current found (rw h (omega arith)),
  rw (h, remove_steps-beyond steps none oldest newer (omega arith)) (ground arith),
)
