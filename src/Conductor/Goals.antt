-- ===== src/Conductor/Goals.antt =====
-- What `setGoal` and `handleStoryBeat` do to the goals, over any store that keeps the port's laws.
pub mod Stack
use dreamweaver.Prelude.{
  ℕ, zero, suc, ◌≤◌, ◌<◌, ◌+◌, ◌*◌, ◌/◌, String, Option, none, some, Bool, true, false, List, [],
  ◌∷◌, ◌≡◌, refl, sym, ap, ◌∙◌, arith, length, length-take, take, head_of, str_eq, inl, inr,
  Bool-cases,
}
use dreamweaver.Goal.{
  Goal, GoalType, active, achieved, Rounded, pos, infinite, create_new, update_progress,
  mark_achieved,
}
use dreamweaver.Session.{Snapshot, SessionState}
use dreamweaver.Session.Store.{stamp}
use dreamweaver.Conductor.{
  SessionPort, PortLaws, Opened, assign, fresh_state, migrate, open_found, get_or_init_state,
  commit, existing_goals, push_goal, current_goal, beat_progress, is_complete, is_active,
  replace_head, tail_of, none_if_empty, advance_goal, advance_goals, StoryBeat, beat_session,
  beat_user, beat_step, set_goal, handle_story_beat,
}

module _ (port : SessionPort) (laws : PortLaws port) where
  open port use {Store, get, set, put, shares}

  -- A commit is read back, stamped, and leaves the other sessions as they were.
  pub get-commit :
      (now : ℕ) (id : String) (o : Opened Store) (s : Snapshot)
      → (r : SessionState) × (get id (commit port now id o s) ≡ some r) × (r.snapshot ≡ stamp now s)
  unfolding commit
  get-commit now id o s = laws.get-set now id _ _

  get-assign_other :
      (b : Bool) (i j : String) (state : SessionState) (store : Store)
      → str_eq i j ≡ false
      → get j (assign port b i state store) ≡ get j store
  get-assign_other true i j state store h = laws.get-put_other i j state store h
  get-assign_other false i j state store h = refl

  get-commit_other :
      (now : ℕ) (i j : String) (o : Opened Store) (s : Snapshot)
      → str_eq i j ≡ false
      → get j (commit port now i o s) ≡ get j o.store
  unfolding commit
  get-commit_other now i j o s h =
      laws.get-set_other now i j _ _ h ∙ get-assign_other o.shared i j _ o.store h

  get-migrate_other :
      (gs : Option (List Goal)) (g : Option Goal) (now : ℕ) (i j : String) (state : SessionState)
      (store : Store)
      → str_eq i j ≡ false
      → get j (migrate port gs g now i state store).store ≡ get j store
  get-migrate_other none (some g) now i j state store h =
      laws.get-set_other now i j _ _ h ∙ get-assign_other shares i j _ store h
  get-migrate_other none none now i j state store h = refl
  get-migrate_other (some gs) g now i j state store h = refl

  get-open_found_other :
      (o : Option SessionState) (now : ℕ) (i j user : String) (store : Store)
      → str_eq i j ≡ false
      → get j (open_found port o now i user store).store ≡ get j store
  get-open_found_other none now i j user store h = laws.get-set_other now i j _ store h
  get-open_found_other (some state) now i j user store h =
      get-migrate_other state.active_goals state.active_goal now i j state store h

  get_or_init_state_other :
      (now : ℕ) (i j user : String) (store : Store)
      → str_eq i j ≡ false
      → get j (get_or_init_state port now i user store).store ≡ get j store
  unfolding get_or_init_state
  get_or_init_state_other now i j user store h =
      get-open_found_other (get i store) now i j user store h

  -- Setting a goal for one session changes no other session.
  pub set_goal_other :
      (now : ℕ) (goal_id i j user : String) (type : GoalType) (minutes : ℕ) (store : Store)
      → str_eq i j ≡ false
      → get j (set_goal port now goal_id i user type minutes store) ≡ get j store
  unfolding set_goal
  set_goal_other now goal_id i j user type minutes store h =
      get-commit_other now i j (get_or_init_state port now i user store) _ h
      ∙ get_or_init_state_other now i j user store h

  beat_step_other :
      (now : ℕ) (i j : String) (o : Opened Store) (p : Rounded) (g : Option Goal)
      → str_eq i j ≡ false
      → get j (beat_step port now i o p g) ≡ get j o.store
  beat_step_other now i j o p none h = refl
  beat_step_other now i j o p (some g) h = elim (Bool-cases (is_active g.status)) [
    | inl e ↦ rw e (get-commit_other now i j o (advance_goals now p g o.state.snapshot) h)
    | inr e ↦ rw e
  ]

  -- A beat changes no session but the one that it names, or the default one if it names none.
  pub handle_story_beat_other :
      (now : ℕ) (e : StoryBeat) (j : String) (store : Store)
      → str_eq (beat_session e) j ≡ false
      → get j (handle_story_beat port now e store) ≡ get j store
  unfolding handle_story_beat
  handle_story_beat_other now e j store h =
      let opened = get_or_init_state port now (beat_session e) (beat_user e) store in
      beat_step_other now (beat_session e) j opened (beat_progress e.beat_index e.total_beats)
        (current_goal opened.state.snapshot) h
      ∙ get_or_init_state_other now (beat_session e) j (beat_user e) store h
