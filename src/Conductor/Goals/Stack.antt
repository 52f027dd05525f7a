-- ===== src/Conductor/Goals/Stack.antt =====
-- The stack of goals of one session.
use dreamweaver.Prelude.{
  ℕ, zero, suc, ◌≤◌, ◌<◌, ◌+◌, ◌*◌, ◌/◌, String, none, some, true, false, List, ◌∷◌, ◌≡◌, refl, ap,
  ◌∙◌, arith, take, head_of,
}
use dreamweaver.Goal.{Goal, GoalType, active, Rounded, create_new, update_progress}
use dreamweaver.Session.{Snapshot, SessionState}
use dreamweaver.Session.Store.{stamp}
use dreamweaver.Conductor.{
  SessionPort, PortLaws, get_or_init_state, commit, existing_goals, push_goal, current_goal,
  beat_progress, is_complete, none_if_empty, advance_goals, StoryBeat, beat_session, beat_user,
  beat_step, set_goal, handle_story_beat,
}
use dreamweaver.Conductor.Goals.{get-commit}

percent_ge : (b t : ℕ) → t ≤ b + 1 → 0 < t → 100 ≤ (200 * (b + 1) + t) / (2 * t)
percent_ge b t h k = grind arith

percent_lt : (b t : ℕ) → b + 1 < t → t < 200 → (200 * (b + 1) + t) / (2 * t) < 100
percent_lt b t h k = grind arith

beat_complete : (b t : ℕ) → t ≤ b + 1 → is_complete (beat_progress b t) ≡ true
unfolding beat_progress
beat_complete b zero h = refl
beat_complete b (suc t) h = ground (arith, percent_ge b (suc t) h)

beat_incomplete : (b t : ℕ) → b + 1 < t → t < 200 → is_complete (beat_progress b t) ≡ false
unfolding beat_progress
beat_incomplete b zero h k = absurd (omega arith)
beat_incomplete b (suc t) h k = ground (arith, percent_lt b (suc t) h k)

-- The stack holds at most five goals, the new one on top and as the active goal, then the first four
-- that were there.
push_goal_lem :
    (goal : Goal) (s : Snapshot)
    → ((push_goal goal s).active_goal ≡ some goal)
      × ((push_goal goal s).active_goals
          ≡ some (goal ∷ take 4 (existing_goals s.active_goals s.active_goal)))
unfolding push_goal
push_goal_lem goal s = (refl, refl)

-- With the current goal on top of the stack, a completing beat drops it.
advance_goals_complete :
    (now : ℕ) (p : Rounded) (g : Goal) (gs : List Goal) (s : Snapshot)
    → is_complete p ≡ true
    → s.active_goals ≡ some (g ∷ gs)
    → ((advance_goals now p g s).active_goals ≡ none_if_empty gs)
      × ((advance_goals now p g s).active_goal ≡ head_of gs)
unfolding advance_goals
advance_goals_complete now p g gs s c e = rw (c, e) (refl, refl)

advance_goals_incomplete :
    (now : ℕ) (p : Rounded) (g : Goal) (gs : List Goal) (s : Snapshot)
    → is_complete p ≡ false
    → s.active_goals ≡ some (g ∷ gs)
    → ((advance_goals now p g s).active_goals ≡ some (update_progress p g ∷ gs))
      × ((advance_goals now p g s).active_goal ≡ some (update_progress p g))
unfolding advance_goals
advance_goals_incomplete now p g gs s c e = rw (c, e) (refl, refl)

current_goal-cons :
    (s : Snapshot) (g : Goal) (gs : List Goal)
    → s.active_goals ≡ some (g ∷ gs)
    → current_goal s ≡ some g
unfolding current_goal
current_goal-cons s g gs e = rw e

update_progress-share :
    (g : Goal) (b t : ℕ)
    → b + 1 < t
    → t < 200
    → update_progress (beat_progress b t) g ≡ record g { progress = (200 * (b + 1) + t) / (2 * t) }
unfolding update_progress beat_progress
update_progress-share g b zero h k = absurd (omega arith)
update_progress-share g b (suc t) h k = ground (arith, percent_lt b (suc t) h k)

module _ (port : SessionPort) (laws : PortLaws port) where
  open port use {Store, get}

  -- After `setGoal` the session is there, the new goal is the active one and the first of the stack,
  -- and behind it are the first four goals that the session had.
  pub set_goal_stack :
      (now : ℕ) (goal_id id user : String) (type : GoalType) (minutes : ℕ) (store : Store)
      → let goal = create_new goal_id now type minutes none in
        let before = (get_or_init_state port now id user store).state in
        (r : SessionState) × (get id (set_goal port now goal_id id user type minutes store)
          ≡ some r)
        × (r.active_goal ≡ some goal)
        × (r.active_goals
            ≡ some (goal ∷ take 4 (existing_goals before.active_goals before.active_goal)))
  unfolding set_goal stamp
  set_goal_stack now goal_id id user type minutes store =
      let goal : Goal = create_new goal_id now type minutes none in
      let o = get_or_init_state port now id user store in
      let (r, read, same) = get-commit port laws now id o (push_goal goal o.state.snapshot) in
      (
        r,
        read,
        ap (λ (s : Snapshot). s.active_goal) same ∙ (push_goal_lem goal o.state.snapshot).0,
        ap (λ (s : Snapshot). s.active_goals) same ∙ (push_goal_lem goal o.state.snapshot).1,
      )

  handle_story_beat-commit :
      (now : ℕ) (e : StoryBeat) (store : Store) (g : Goal) (gs : List Goal)
      → let o = get_or_init_state port now (beat_session e) (beat_user e) store in
        o.state.active_goals ≡ some (g ∷ gs)
        → g.status ≡ active
        → handle_story_beat port now e store
          ≡ commit port now
              (beat_session e)
              o
              (advance_goals now (beat_progress e.beat_index e.total_beats) g o.state.snapshot)
  unfolding handle_story_beat
  handle_story_beat-commit now e store g gs top live =
      let o = get_or_init_state port now (beat_session e) (beat_user e) store in
      ap (beat_step port now (beat_session e) o (beat_progress e.beat_index e.total_beats))
        (current_goal-cons o.state.snapshot g gs top)
      ∙ rw live

  -- The last beat of a story takes an active goal off the stack: the goals behind it move up, and
  -- the next one becomes the active goal.
  pub last_beat_pops :
      (now : ℕ) (e : StoryBeat) (store : Store) (g : Goal) (gs : List Goal)
      → (get_or_init_state port now (beat_session e) (beat_user e) store).state.active_goals
        ≡ some (g ∷ gs)
      → g.status ≡ active
      → e.total_beats ≤ e.beat_index + 1
      → (r : SessionState) × (get (beat_session e) (handle_story_beat port now e store) ≡ some r)
        × (r.active_goals ≡ none_if_empty gs)
        × (r.active_goal ≡ head_of gs)
  unfolding stamp
  last_beat_pops now e store g gs top live last =
      let o = get_or_init_state port now (beat_session e) (beat_user e) store in
      let p = beat_progress e.beat_index e.total_beats in
      let (r, read, same) =
        get-commit port laws now (beat_session e) o (advance_goals now p g o.state.snapshot) in
      let (stack, head) =
        advance_goals_complete now p g gs o.state.snapshot
          (beat_complete e.beat_index e.total_beats last) top in
      (
        r,
        ap (get (beat_session e)) (handle_story_beat-commit now e store g gs top live) ∙ read,
        ap (λ (s : Snapshot). s.active_goals) same ∙ stack,
        ap (λ (s : Snapshot). s.active_goal) same ∙ head,
      )

  -- An earlier beat of a story of less than two hundred beats keeps the goal on top: nothing but its
  -- progress changes, which becomes the share of the beats, rounded and below a hundred.
  pub earlier_beat_keeps :
      (now : ℕ) (e : StoryBeat) (store : Store) (g : Goal) (gs : List Goal)
      → (get_or_init_state port now (beat_session e) (beat_user e) store).state.active_goals
        ≡ some (g ∷ gs)
      → g.status ≡ active
      → e.beat_index + 1 < e.total_beats
      → e.total_beats < 200
      → let share = (200 * (e.beat_index + 1) + e.total_beats) / (2 * e.total_beats) in
        (r : SessionState) × (get (beat_session e) (handle_story_beat port now e store) ≡ some r)
        × (r.active_goals ≡ some (record g { progress = share } ∷ gs))
        × (r.active_goal ≡ some (record g { progress = share }))
        × (share < 100)
  unfolding stamp
  earlier_beat_keeps now e store g gs top live early few =
      let o = get_or_init_state port now (beat_session e) (beat_user e) store in
      let p = beat_progress e.beat_index e.total_beats in
      let (r, read, same) =
        get-commit port laws now (beat_session e) o (advance_goals now p g o.state.snapshot) in
      let (stack, head) =
        advance_goals_incomplete now p g gs o.state.snapshot
          (beat_incomplete e.beat_index e.total_beats early few) top in
      let exact = update_progress-share g e.beat_index e.total_beats early few in
      (
        r,
        ap (get (beat_session e)) (handle_story_beat-commit now e store g gs top live) ∙ read,
        ap (λ (s : Snapshot). s.active_goals) same ∙ stack ∙ ap (λ (h : Goal). some (h ∷ gs)) exact,
        ap (λ (s : Snapshot). s.active_goal) same ∙ head ∙ ap (λ (h : Goal). some h) exact,
        percent_lt e.beat_index e.total_beats early few,
      )
