-- ===== src/Conductor/Sessions/Outcomes.antt =====
-- What a story session leaves behind, and what it asks for.
use dreamweaver.Prelude.{
  ℕ, String, Option, none, some, Bool, true, false, ◌&&◌, truthy, or_else, List, any, str_eq, sym,
  ◌≡◌, refl, ap, ◌∙◌, ◌⊎◌, inl, inr, Bool-cases,
}
use dreamweaver.Thought.Arbiter.{ArbitrationContext, arbitrate, parameter}
use dreamweaver.Session.{SessionState, Snapshot}
use dreamweaver.Session.Store.{stamp}
use dreamweaver.Goal.{Goal}
use dreamweaver.Thought.{SessionPhase}
use dreamweaver.Conductor.{
  SessionPort, PortLaws, Opened, fresh_state, migrate, open_found, get_or_init_state, commit,
}
use dreamweaver.Conductor.Goals.{get-commit}
use dreamweaver.Conductor.Cues.{begin, begin_step, start_session}
use dreamweaver.Conductor.Attempts.{Reply, Ending, answered, safe_mode, fallen_back, attempt_all}
use dreamweaver.Conductor.Turns.{suggest}
use dreamweaver.Conductor.Sessions.Forms.{durations, has_form, is_duration_lem, valid_lem}
use dreamweaver.Conductor.Sessions.{
  SessionConfig, Surroundings, begun_phase, context_of, is_duration, choose, refined_duration,
  finish, Session, valid_config, valid_context, lead_session, conduct_story_session,
}

choose-cases :
    (given d : Option String)
    → (choose given d ≡ given)
      ⊎ ((s : String) × (choose given d ≡ some s) × (any (str_eq s) durations ≡ true))
choose-cases given none = inl refl
choose-cases given (some d) = elim (Bool-cases (is_duration d)) [
  | inl e ↦ inr (d, rw e refl, sym (is_duration_lem d) ∙ e)
  | inr e ↦ inl (rw e refl)
]

finish-duration :
    (port : SessionPort) (now : ℕ) (id user : String) (config : SessionConfig)
    (context : ArbitrationContext) (store : port.Store) (attempts cost : ℕ) (ending : Ending)
    → (let done = finish port now id user config context store attempts cost ending in
        (done.duration ≡ config.duration)
        ⊎ ((d : String) × (done.duration ≡ some d) × (any (str_eq d) durations ≡ true)))
unfolding refined_duration
finish-duration port now id user config context store attempts cost (answered t last) =
    choose-cases config.duration (parameter "duration" (arbitrate t context))
finish-duration port now id user config context store attempts cost safe_mode = inl refl
finish-duration port now id user config context store attempts cost (fallen_back last) = inl refl

-- What a session remembers as the theme that was suggested last.
abbrev pub theme_kept : Option String → String → Ending → Option String
theme_kept before theme (answered t last) = some theme
theme_kept before theme safe_mode = before
theme_kept before theme (fallen_back last) = before

module _ (port : SessionPort) (laws : PortLaws port) where
  open port use {Store, get, set}

  -- The session `id` is there, in the phase `p` and with the theme `o`.
  abbrev Keeps : String → SessionPhase → Option String → Store → Type 0
  Keeps id p o store =
      (s : SessionState) × (get id store ≡ some s) × (s.phase ≡ p) × (s.last_suggested_theme ≡ o)

  commit-Keeps :
      (now : ℕ) (id : String) (o : Opened Store) (s : Snapshot)
      → Keeps id s.phase s.last_suggested_theme (commit port now id o s)
  unfolding stamp
  commit-Keeps now id o s =
      let (r, found, same) = get-commit port laws now id o s in
      (
        r,
        found,
        ap (λ (t : Snapshot). t.phase) same,
        ap (λ (t : Snapshot). t.last_suggested_theme) same,
      )

  set-Keeps :
      (now : ℕ) (id : String) (state : SessionState) (store : Store)
      → Keeps id state.phase state.last_suggested_theme (set now id state store)
  unfolding stamp
  set-Keeps now id state store =
      let (r, found, same) = laws.get-set now id state store in
      (
        r,
        found,
        ap (λ (t : Snapshot). t.phase) same,
        ap (λ (t : Snapshot). t.last_suggested_theme) same,
      )

  -- What is opened is what the store holds then.
  abbrev IsOpenedKept : String → Opened Store → Type 0
  IsOpenedKept id o = Keeps id o.state.phase o.state.last_suggested_theme o.store

  migrate-kept :
      (gs : Option (List Goal)) (g : Option Goal) (now : ℕ) (id : String) (s : SessionState)
      (store : Store)
      → get id store ≡ some s
      → IsOpenedKept id (migrate port gs g now id s store)
        × ((migrate port gs g now id s store).state.phase ≡ s.phase)
        × ((migrate port gs g now id s store).state.last_suggested_theme ≡ s.last_suggested_theme)
  migrate-kept none (some g) now id s store h = (set-Keeps now id _ _, refl, refl)
  migrate-kept none none now id s store h = ((s, h, refl, refl), refl, refl)
  migrate-kept (some gs) g now id s store h = ((s, h, refl, refl), refl, refl)

  open_found-kept :
      (o : Option SessionState) (now : ℕ) (id user : String) (store : Store)
      → get id store ≡ o
      → IsOpenedKept id (open_found port o now id user store)
  open_found-kept none now id user store h = set-Keeps now id (fresh_state now id user) store
  open_found-kept (some s) now id user store h =
      (migrate-kept s.active_goals s.active_goal now id s store h).0

  opened-kept :
      (now : ℕ) (id user : String) (store : Store)
      → IsOpenedKept id (get_or_init_state port now id user store)
  unfolding get_or_init_state
  opened-kept now id user store = open_found-kept (get id store) now id user store refl

  -- Opening a session that is there changes neither its phase nor its theme.
  opened-same :
      (now : ℕ) (id user : String) (store : Store) (s : SessionState)
      → get id store ≡ some s
      → (get_or_init_state port now id user store).state.phase ≡ s.phase
  unfolding get_or_init_state
  opened-same now id user store s h =
      rw h (migrate-kept s.active_goals s.active_goal now id s store h).1

  begin_step-Keeps :
      (now : ℕ) (id : String) (o : Opened Store) (t : Option ℕ)
      → IsOpenedKept id o
      → Keeps id
          (begun_phase t o.state.phase)
          o.state.last_suggested_theme
          (begin_step port now id o t)
  begin_step-Keeps now id o none k = commit-Keeps now id o (begin now o.state.snapshot)
  begin_step-Keeps now id o (some t) k = k

  start_session-Keeps :
      (now : ℕ) (id user : String) (store : Store)
      → (let state = (get_or_init_state port now id user store).state in
          Keeps id
            (begun_phase state.session_start_time state.phase)
            state.last_suggested_theme
            (start_session port now id user store))
  unfolding start_session
  start_session-Keeps now id user store =
      begin_step-Keeps now id (get_or_init_state port now id user store) _
        (opened-kept now id user store)

  suggest-Keeps :
      (now : ℕ) (id user theme : String) (p : SessionPhase) (before : Option String) (store : Store)
      → Keeps id p before store
      → Keeps id p (some theme) (suggest port now id user (some theme) store)
  suggest-Keeps now id user theme p before store (s, found, phase, _) =
      let o = get_or_init_state port now id user store in
      let (r, there, same, kept) =
        commit-Keeps now id o (record (o.state.snapshot) { last_suggested_theme = some theme }) in
      (r, there, same ∙ opened-same now id user store s found ∙ phase, kept)

  finish-Keeps :
      (now : ℕ) (id user : String) (config : SessionConfig) (context : ArbitrationContext)
      (p : SessionPhase) (before : Option String) (store : Store) (attempts cost : ℕ)
      (ending : Ending)
      → Keeps id p before store
      → (let done = finish port now id user config context store attempts cost ending in
          Keeps id p (theme_kept before config.theme ending) done.store
          × (done.theme ≡ config.theme))
  finish-Keeps now id user config context p before store attempts cost (answered t last) k =
      (suggest-Keeps now id user config.theme p before store k, refl)
  finish-Keeps now id user config context p before store attempts cost safe_mode k = (k, refl)
  finish-Keeps now id user config context p before store attempts cost (fallen_back last) k =
      (k, refl)

  -- The call of a story session throws exactly if its configuration or its context does not have the
  -- form that it should. Otherwise it leads to a session, however the model fares; the session is
  -- then there in the phase that follows its start, or the one that it had if it had begun; it
  -- remembers the theme of the configuration if the model answered, and else the one that it had; and
  -- the story that is asked for has the theme of the configuration, and its duration or one of
  -- `short`, `medium` and `long`.
  pub session_remembers :
      (is_uuid : String → Bool) (now : ℕ) (id : String) (user : Option String)
      (config : SessionConfig) (around : Surroundings) (reply : ℕ → Reply) (store : Store)
      → (let valid = has_form is_uuid user config around.current_mood in
          let before = (get_or_init_state port now id (or_else (truthy user) "anon") store).state in
          let run = conduct_story_session port is_uuid now id user config around reply store in
          ((valid ≡ false) × (run ≡ none))
          ⊎ ((valid ≡ true)
              × ((done : Session Store) × (run ≡ some done)
                  × ((s : SessionState) × (get id done.store ≡ some s)
                      × (s.phase ≡ begun_phase before.session_start_time before.phase)
                      × (s.last_suggested_theme
                          ≡ theme_kept before.last_suggested_theme config.theme
                              (attempt_all reply).ending))
                  × (done.theme ≡ config.theme)
                  × ((done.duration ≡ config.duration)
                      ⊎ ((d : String) × (done.duration ≡ some d)
                          × (any (str_eq d) durations ≡ true))))))
  unfolding conduct_story_session lead_session
  session_remembers is_uuid now id user config around reply store =
      let who = or_else (truthy user) "anon" in
      let state = (get_or_init_state port now id who store).state in
      let context = context_of around (begun_phase state.session_start_time state.phase) in
      let run = attempt_all reply in
      let form = valid_lem is_uuid user config around.current_mood in
      let (kept, theme) =
        finish-Keeps now id who config context _ _ _ run.attempts run.cost run.ending
          (start_session-Keeps now id who store) in
      elim (Bool-cases (valid_config config && valid_context is_uuid user around.current_mood)) [
        | inl e ↦ inr (
          sym form ∙ e,
          (
            lead_session port now id who config around reply store,
            rw e refl,
            kept,
            theme,
            finish-duration port now id who config context (start_session port now id who store)
                run.attempts run.cost run.ending,
          ),
        )
        | inr e ↦ inl (sym form ∙ e, rw e refl)
      ]
