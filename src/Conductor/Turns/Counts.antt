-- ===== src/Conductor/Turns/Counts.antt =====
-- What a turn of the conversation leaves in the session.
use dreamweaver.Prelude.{
  ℕ, ◌+◌, String, Option, none, some, is_some, truthy, Bool, true, false, ◌&&◌, ◌||◌, if◌then◌else◌,
  List, str_eq, ◌≡◌, refl, ap, ◌∙◌, inl, inr, arith, Dict, lookup, lookup-insert,
  lookup-insert_self, Bool-cases,
}
use dreamweaver.Thought.Arbiter.{parameter}
use dreamweaver.Goal.{Goal}
use dreamweaver.Session.{Snapshot, SessionState, Value}
use dreamweaver.Session.Store.{stamp}
use dreamweaver.Conductor.{SessionPort, PortLaws, Opened, get_or_init_state, migrate, commit}
use dreamweaver.Conductor.Goals.{get-commit}
use dreamweaver.Conductor.Attempts.{Reply, thought, failed}
use dreamweaver.Conductor.Turns.{
  assign_context, number_of, Learned, learn, learn_of, rejects, accepts, Turn, counter, count_turn,
  TurnEnding, replied, emergency, suggestion, note_turn, too_many_interventions, too_slow, suggest,
  conclude, take_turn, process_turn,
}

-- The theme that the session has after a turn: the one that is suggested, or else what the message
-- left of the last one.
abbrev pub theme_after : Option String → TurnEnding → Option String
theme_after kept emergency = kept
theme_after kept (replied reply t) =
    elim (if str_eq t.action "SUGGEST" then parameter "theme" t else none) [
      | none ↦ kept
      | some theme ↦ some theme
    ]

pub count_turn-interactions :
    (l : Learned) (s : Snapshot)
    → counter "interactions" (count_turn l s) ≡ counter "interactions" s + 1
unfolding count_turn
count_turn-interactions l s = simp (lookup-insert)

pub count_turn-interventions :
    (l : Learned) (s : Snapshot)
    → counter "interventions" (count_turn l s) ≡ counter "interventions" s + l.interventions
unfolding count_turn
count_turn-interventions l s = simp (lookup-insert_self)

learn_of-interventions :
    (user : String) (kept o : Option String) (message : String)
    → (learn_of user kept o message).interventions ≡ (if is_some o && rejects message then 1 else 0)
learn_of-interventions user kept none message = refl
learn_of-interventions user kept (some theme) message = elim (Bool-cases (rejects message)) [
  | inl e ↦ rw e refl
  | inr e ↦ rw e (ground arith)
]

learn_of-theme :
    (user : String) (kept o : Option String) (message : String)
    → (learn_of user kept o message).theme
      ≡ (if is_some o && (rejects message || accepts message) then none else kept)
learn_of-theme user kept none message = refl
learn_of-theme user kept (some theme) message = elim (Bool-cases (rejects message)) [
  | inl e ↦ rw e refl
  | inr e ↦ rw e (elim (Bool-cases (accepts message)) [ inl f ↦ rw f refl | inr f ↦ rw f refl ])
]

pub learn-interventions :
    (memory : Bool) (user : String) (last : Option String) (message : String)
    → (learn memory user last message).interventions
      ≡ (if (memory && is_some (truthy last)) && rejects message then 1 else 0)
unfolding learn
learn-interventions true user last message = learn_of-interventions user last (truthy last) message
learn-interventions false user last message = refl

learn-theme :
    (memory : Bool) (user : String) (last : Option String) (message : String)
    → (learn memory user last message).theme ≡ (
        if (memory && is_some (truthy last)) && (rejects message || accepts message)
        then none
        else last)
unfolding learn
learn-theme true user last message = learn_of-theme user last (truthy last) message
learn-theme false user last message = refl

module _ (port : SessionPort) (laws : PortLaws port) where
  open port use {Store, get, set, put, shares}

  -- The session `id` has the context `c` and the theme `o`.
  record Holds (id : String) (c : Dict Value) (o : Option String) (store : Store) : Type 0 where
    state : SessionState
    found : get id store ≡ some state
    context : state.snapshot.context ≡ c
    theme : state.snapshot.last_suggested_theme ≡ o

  migrate-context :
      (gs : Option (List Goal)) (g : Option Goal) (now : ℕ) (id : String) (s : SessionState)
      (store : Store)
      → (migrate port gs g now id s store).state.snapshot.context ≡ s.snapshot.context
  migrate-context none none now id s store = refl
  migrate-context none (some g) now id s store = refl
  migrate-context (some gs) g now id s store = refl

  opened-context :
      (now : ℕ) (id user : String) (store : Store) (s : SessionState)
      → get id store ≡ some s
      → (get_or_init_state port now id user store).state.snapshot.context ≡ s.snapshot.context
  unfolding get_or_init_state
  opened-context now id user store s e =
      rw e (migrate-context s.snapshot.active_goals s.snapshot.active_goal now id s store)

  commit-Holds :
      (now : ℕ) (id : String) (o : Opened Store) (s : Snapshot)
      → Holds id s.context s.last_suggested_theme (commit port now id o s)
  unfolding stamp
  commit-Holds now id o s =
      let (r, found, same) = get-commit port laws now id o s in
      record {
        state = r;
        found = found;
        context = ap (λ (t : Snapshot). t.context) same;
        theme = ap (λ (t : Snapshot). t.last_suggested_theme) same;
      }

  suggest-Holds :
      (now : ℕ) (id user : String) (o kept : Option String) (c : Dict Value) (store : Store)
      → Holds id c kept store
      → Holds id c
          (elim o [ none ↦ kept | some theme ↦ some theme ])
          (suggest port now id user o store)
  suggest-Holds now id user none kept c store h = h
  suggest-Holds now id user (some theme) kept c store h =
      let same = opened-context now id user store h.state h.found ∙ h.context in
      rw (← same) (commit-Holds now id (get_or_init_state port now id user store) _)

  conclude-Holds :
      (now : ℕ) (id user : String) (memory gate : Bool) (ms : ℕ) (l : Learned) (reply : Reply)
      (c : Dict Value) (store : Store)
      → Holds id c l.theme store
      → (let turn = conclude port now id user memory gate ms l reply store in
          Holds id c (theme_after l.theme turn.ending) turn.store)
  unfolding suggestion
  conclude-Holds now id user memory gate ms l (failed f) c store h = h
  conclude-Holds now id user memory gate ms l (thought t) c store h =
      elim (Bool-cases (too_slow gate ms)) [
        | inl e ↦ rw e h
        | inr e ↦ rw e (suggest-Holds now id user (suggestion t) l.theme c store h)
      ]

  note_turn-Holds :
      (now : ℕ) (id : String) (l : Learned) (opened : Opened Store)
      → Holds id
          (count_turn l opened.state.snapshot).context
          l.theme
          (note_turn port now id l opened)
  unfolding note_turn count_turn
  note_turn-Holds now id l opened =
      let s = count_turn l opened.state.snapshot in
      let store = assign_context port shares (get id opened.store) id s.context opened.store in
      commit-Holds now id (record opened { store = store }) s

  take_turn-Holds :
      (now : ℕ) (id user : String) (memory gate : Bool) (message : String) (ms : ℕ) (reply : Reply)
      (store : Store)
      → (let before = (get_or_init_state port now id user store).state.snapshot in
          let l = learn memory user before.last_suggested_theme message in
          let turn = take_turn port now id user memory gate message ms reply store in
          Holds id (count_turn l before).context (theme_after l.theme turn.ending) turn.store)
  unfolding take_turn
  take_turn-Holds now id user memory gate message ms reply store =
      let opened = get_or_init_state port now id user store in
      let before = opened.state.snapshot in
      let l = learn memory user before.last_suggested_theme message in
      let noted : Holds id (count_turn l before).context l.theme (note_turn port now id l opened) =
        note_turn-Holds now id l opened in
      elim (Bool-cases (too_many_interventions gate (count_turn l before))) [
        | inl e ↦ rw e noted
        | inr e ↦ rw e (conclude-Holds now id user memory gate ms l reply _ _ noted)
      ]

  -- A turn of a user whose identifier is a UUID leads to an ending, whatever the model did and the
  -- gate said, and then the session is there. It counts one interaction more; it counts one
  -- intervention more exactly if the agent has a memory, a theme was suggested last, and the message
  -- rejects it. Its theme is the one that the reply suggests; without a reply that suggests one it is
  -- the last one, or none if the agent has a memory and the message rejected or accepted the last one.
  pub turn_counts :
      (is_uuid : String → Bool) (now : ℕ) (id user : String) (memory gate : Bool) (message : String)
      (ms : ℕ) (reply : Reply) (store : Store)
      → is_uuid user ≡ true
      → (let before = (get_or_init_state port now id user store).state.snapshot in
          let last = before.last_suggested_theme in
          let asked = memory && is_some (truthy last) in
          (turn : Turn Store) × (process_turn port is_uuid now id user memory gate message ms reply
              store
            ≡ some turn)
          × (s : SessionState) × (get id turn.store ≡ some s)
          × (counter "interactions" s.snapshot ≡ counter "interactions" before + 1)
          × (counter "interventions" s.snapshot
              ≡ counter "interventions" before + (if asked && rejects message then 1 else 0))
          × (s.snapshot.last_suggested_theme
              ≡ theme_after
                  (if asked && (rejects message || accepts message) then none else last)
                  turn.ending))
  unfolding process_turn
  turn_counts is_uuid now id user memory gate message ms reply store known =
      let before = (get_or_init_state port now id user store).state.snapshot in
      let last = before.last_suggested_theme in
      let l = learn memory user last message in
      let h = take_turn-Holds now id user memory gate message ms reply store in
      let turn = take_turn port now id user memory gate message ms reply store in
      (
        turn,
        rw known refl,
        h.state,
        h.found,
        ap (λ c. number_of (lookup "interactions" c)) h.context ∙ count_turn-interactions l before,
        ap (λ c. number_of (lookup "interventions" c)) h.context
            ∙ count_turn-interventions l before
            ∙ ap (λ n. counter "interventions" before + n)
                (learn-interventions memory user last message),
        h.theme
            ∙ ap (λ (o : Option String). theme_after o turn.ending)
                (learn-theme memory user last message),
      )
