-- ===== src/Generation/Delivery.antt =====
-- What a call of the generation publishes and keeps, whether it succeeds or not.
use dreamweaver.Prelude.{
  String, Option, none, some, or_else, map, Bool, true, ◌&&◌, ◌||◌, List, [], ◌++◌, ◌≡◌, inl, inr,
  refl, ◌∙◌, truthy, str_eq, Bool-cases,
}
use dreamweaver.Companions.{DreamCompanion}
use dreamweaver.Conductor.{SessionPort}
use dreamweaver.Story.{Story}
use dreamweaver.Generation.{
  Request, Published, chunk_generated, World, Answers, Response, validate_request, generated,
  beat_events, announce, unlock_for, generate_story, story_of, finish, streamed, after_session,
  conducted,
}
use dreamweaver.Conductor.Sessions.{Session}

-- The events after those for the chunks.
abbrev pub last_events : (port : SessionPort) → Request → Option Response → List Published
last_events port r none = []
last_events port r (some response) =
    beat_events r response.story 0 response.story.content.paragraphs
    ++ announce port r (truthy r.user_id) response.story

module _ (port : SessionPort) (a : Answers) (r : Request) where
  unlock_for-keeps :
      (user : Option String) (w : World port.Store)
      → ((unlock_for port a user w).0.events ≡ w.events)
        × ((unlock_for port a user w).0.stories ≡ w.stories)
  unlock_for-keeps none w = (refl, refl)
  unlock_for-keeps (some user) w = (refl, refl)

  finish-none :
      (before : List DreamCompanion) (o : Option Story) (w : World port.Store)
      → (finish port a r before o w).1 ≡ none
      → (finish port a r before o w).0.stories ≡ w.stories
  finish-none before none w h = refl
  finish-none before (some story) w h = absurd (cc h)

-- What the bus gets for a chunk of a stream, and for all.
abbrev pub chunk_event : Answers → Request → String → Published
chunk_event a r chunk =
    chunk_generated (or_else (truthy r.user_id) "unknown") (or_else (truthy r.request_id) "unknown")
      a.story_id chunk

abbrev pub chunk_list : Answers → Request → List String → List Published
chunk_list a r chunks = map (chunk_event a r) chunks

-- The conductor takes what a valid request tells it: its user, if there is one, is a UUID, and its
-- duration, if there is one, one of the three.
abbrev pub is_taken : (String → Bool) → Request → Bool
is_taken is_uuid r =
    elim r.user_id as (λ _. Bool) [ none ↦ true | some u ↦ is_uuid u ]
    && elim r.duration as (λ _. Bool) [
      | none ↦ true
      | some d ↦ str_eq d "short" || (str_eq d "medium" || str_eq d "long")
    ]

module _ (port : SessionPort) (a : Answers) (r : Request) where
  after_session-none :
      (opened : World port.Store × List DreamCompanion) (o : Option (Session port.Store))
      → (after_session port a r opened o).1 ≡ none
      → (after_session port a r opened o).0.stories ≡ opened.0.stories
  after_session-none (unlocked, before) none h = refl
  after_session-none (unlocked, before) (some done) h =
      finish-none port a r before (story_of a r (generated a)) (streamed port a r unlocked done) h

  after_session-some :
      (opened : World port.Store × List DreamCompanion) (o : Option (Session port.Store))
      (resp : Response)
      → (after_session port a r opened o).1 ≡ some resp
      → (done : Session port.Store) × ((finish port a r opened.1
            (story_of a r (generated a))
            (streamed port a r opened.0 done)).1
          ≡ some resp)
  after_session-some (unlocked, before) none resp h = absurd (cc h)
  after_session-some (unlocked, before) (some done) resp h = (done, h)

  -- A call that returns has led its session and finished.
  pub generate_story-some :
      (w : World port.Store) (resp : Response)
      → (generate_story port a r w).1 ≡ some resp
      → (done : Session port.Store) × ((finish port a r
            (unlock_for port a (truthy r.user_id) w).1
            (story_of a r (generated a))
            (streamed port a r (unlock_for port a (truthy r.user_id) w).0 done)).1
          ≡ some resp)
  unfolding generate_story
  generate_story-some w resp h =
      let opened = unlock_for port a (truthy r.user_id) w in
      elim (Bool-cases (validate_request r)) [
        | inl valid ↦ after_session-some opened (conducted port a r opened.0) resp (rw valid at h)
        | inr refused ↦ absurd (cc (rw refused at h))
      ]

module _ (port : SessionPort) (a : Answers) (r : Request) (w : World port.Store) where
  -- If a call throws, no story is kept that was not there.
  pub generate_story-none :
      (generate_story port a r w).1 ≡ none → (generate_story port a r w).0.stories ≡ w.stories
  unfolding generate_story
  generate_story-none h =
      let opened = unlock_for port a (truthy r.user_id) w in
      elim (Bool-cases (validate_request r)) [
        | inl valid ↦ rw valid (
            after_session-none port a r opened (conducted port a r opened.0) (rw valid at h)
            ∙ (unlock_for-keeps port a r (truthy r.user_id) w).1)
        | inr refused ↦ rw refused refl
      ]
