-- ===== src/Generation.antt =====
-- The generation of a story (api/src/application/use-cases/GenerateStoryUseCase.ts), with all the
-- services that the container gives it. What the model streams and answers, the verdict on the text
-- and the voices are parameters, and so are the prompts, which depend on nothing that is kept. A call
-- of `save` or `publish` does not fail.
pub mod Texts
pub mod Delivery
pub mod Titles
pub mod Unlocks
use Prim.Native.Char.{code}
use Prim.Native.String
use dreamweaver.Prelude.{
  ℕ, zero, suc, ◌+◌, String, Option, none, some, Bool, true, false, not, ◌&&◌, ◌||◌, List, [], ◌∷◌,
  ◌++◌, any, length, Dict, ltb, leb, ◌==◌, str_eq, or_else, truthy, is_some, either, trim,
  if◌then◌else◌,
}
use dreamweaver.Generation.Texts.{accumulate, clean, joined}
use dreamweaver.Goal.{show}
use dreamweaver.Companions.{DreamCompanion, check_unlocks}
use dreamweaver.Conductor.{SessionPort}
use dreamweaver.Conductor.Attempts.{Reply}
use dreamweaver.Conductor.Sessions.{SessionConfig, Surroundings, Session, conduct_story_session}
use dreamweaver.Safety.{SafetyCheckResult, Verdict, check_content}
use dreamweaver.Story.{
  Story, StoryContent, completed, create, from_raw_text, estimated_reading_time,
}
use dreamweaver.Voice.{VoiceProfile, is_ready}

pub record Request : Type 0 where
  pub theme : String
  pub child_age : Option ℕ
  pub duration : Option String
  pub user_id : Option String
  pub voice_profile_id : Option String
  pub mood : Option String
  pub request_id : Option String

-- What is published.
pub data Published : Type 0 where
  chunk_generated : (user_id session_id story_id text : String) → Published
  beat_completed : (user_id story_id : String) (beat_index total_beats : ℕ) → Published
  generation_completed : (user_id session_id story_id : String) → Published

-- The repositories, the sessions of the conductor, and the bus. `unlocks` are those of the user.
pub record World (S : Type 0) : Type 0 where
  pub stories : List Story
  pub unlocks : Dict ℕ
  pub sessions : S
  pub events : List Published

-- What the services answer in a call: `stream` is what comes before the end of the stream or, if
-- `broken`, before it fails; `whole` is the answer of `generateStory`, a title and a text.
pub record Answers : Type 0 where
  pub now : ℕ
  pub story_id : String
  pub blocked : List String
  pub time_of_day : Option String
  pub reply : ℕ → Reply
  pub stream : List String
  pub broken : Bool
  pub whole : Option (String × String)
  pub verdict : String → ℕ → Option Verdict
  pub fallback : String
  pub find_voice : String → Option VoiceProfile
  -- The address of the sound for a text and a model; `none` is an exception.
  pub synthesize : String → Option String → Option String
  pub is_uuid : String → Bool
  pub is_url : String → Bool

unfoldable pub validate_request : Request → Bool
validate_request r =
    not (str_eq (trim r.theme) "")
    && elim r.child_age as (λ _. Bool) [ none ↦ true | some age ↦ leb 2 age && leb age 12 ]

abbrev pub mood_of : Option String → String
mood_of none = "calm"
mood_of (some m) =
    if str_eq m "energetic" then "energetic" else if str_eq m "tired" then "tired" else "calm"

-- The text and the title; `none` is an exception.
unfoldable pub generated : Answers → Option (String × String)
unfolding accumulate
generated a =
    if a.broken
    then elim a.whole [ none ↦ none | some (title, content) ↦ some (content, title) ]
    else some (accumulate a.stream ("", "Untitled Story"))

-- The text that becomes the story.
unfoldable pub checked_text : Answers → Request → String → String
unfolding check_content
checked_text a r text =
    let safety = check_content a.verdict text r.child_age (some a.fallback) in
    if safety.is_safe
    then or_else (truthy safety.sanitized_content) text
    else or_else safety.fallback_content ""

abbrev model_of : Option VoiceProfile → Option String
model_of none = none
model_of (some p) = if is_ready p then p.voice_model_id else none

abbrev voice_model : Answers → Option String → Option String
voice_model a none = none
voice_model a (some id) = model_of (a.find_voice id)

unfoldable pub story_from : Answers → Request → String → StoryContent → Story
unfolding joined
story_from a r title content = record {
  id = a.story_id;
  title = title;
  content = content;
  theme = r.theme;
  owner_id = or_else (truthy r.user_id) "system";
  status = completed;
  created_at = a.now;
  generated_at = some a.now;
  audio_url = a.synthesize (joined content.paragraphs) (voice_model a (truthy r.voice_profile_id));
}

abbrev pub titled : Answers → Request → String → Option StoryContent → Option Story
titled a r title none = none
titled a r title (some content) = create a.is_uuid a.is_url (story_from a r title content)

-- The story; `none` is an exception.
unfoldable pub make_story : Answers → Request → String × String → Option Story
make_story a r (text, title) = titled a r title (from_raw_text (clean (checked_text a r text)))

abbrev pub story_of : Answers → Request → Option (String × String) → Option Story
story_of a r none = none
story_of a r (some g) = make_story a r g

abbrev session_of : Request → String → String
session_of r other = or_else (truthy r.request_id) other

abbrev user_of : Request → String
user_of r = or_else (truthy r.user_id) "unknown"

-- One event for each chunk, before anything is checked.
unfoldable pub chunk_events : Answers → Request → List String → List Published
chunk_events a r [] = []
chunk_events a r (c ∷ cs) =
    chunk_generated (user_of r) (session_of r "unknown") a.story_id c ∷ chunk_events a r cs

-- The events for the paragraphs from the `i`-th on.
unfoldable pub beat_events : Request → Story → (i : ℕ) → List String → List Published
beat_events r story i [] = []
beat_events r story i (p ∷ ps) =
    beat_completed (user_of r) story.id i (length story.content.paragraphs)
    ∷ beat_events r story (i + 1) ps

-- The stories that the repository finds for a user.
abbrev pub stories_of : String → List Story → List Story
stories_of user [] = []
stories_of user (s ∷ ss) =
    let rest = stories_of user ss in if str_eq s.owner_id user then s ∷ rest else rest

-- A story with the same identifier is replaced.
abbrev pub upsert : Story → List Story → List Story
upsert story [] = story ∷ []
upsert story (s ∷ ss) = if str_eq s.id story.id then story ∷ ss else s ∷ upsert story ss

abbrev pub has_id : String → List DreamCompanion → Bool
has_id id cs = any (λ (c : DreamCompanion). str_eq c.id id) cs

-- The companions that were not there before.
abbrev pub without : List DreamCompanion → List DreamCompanion → List DreamCompanion
without before [] = []
without before (c ∷ cs) =
    let rest = without before cs in if has_id c.id before then rest else c ∷ rest

pub record Response : Type 0 where
  pub story : Story
  pub estimated_reading_time : ℕ
  pub audio_url : Option String
  pub newly_unlocked : List DreamCompanion

module _ (port : SessionPort) where
  -- `checkUnlockUseCase.execute(request.userId)`, if there is a user.
  abbrev pub unlock_for :
      Answers → Option String → World port.Store → World port.Store × List DreamCompanion
  unlock_for a none w = (w, [])
  unlock_for a (some user) w =
      let done = check_unlocks a.now (length (stories_of user w.stories)) a.blocked w.unlocks in
      (record w { unlocks = done.0 }, done.1)

  abbrev pub conducted : Answers → Request → World port.Store → Option (Session port.Store)
  conducted a r w =
      let config : SessionConfig = record {
        theme = r.theme;
        duration = r.duration;
        child_age = r.child_age;
      } in
      let around : Surroundings = record {
        time_of_day = a.time_of_day;
        child_age = r.child_age;
        current_mood = some (mood_of r.mood);
      } in
      conduct_story_session port a.is_uuid a.now
        (session_of r (String.◌++◌ "session_" (show a.now))) r.user_id config around a.reply
        w.sessions

  abbrev pub save_for : Option String → Story → World port.Store → World port.Store
  save_for none story w = w
  save_for (some user) story w = record w { stories = upsert story w.stories }

  abbrev pub announce : Request → Option String → Story → List Published
  announce r none story = []
  announce r (some user) story = generation_completed user (session_of r story.id) story.id ∷ []

  -- What follows when the story is there.
  unfoldable pub deliver :
      Answers
      → Request
      → List DreamCompanion
      → Story
      → World port.Store
      → World port.Store × Response
  unfolding beat_events
  deliver a r before story w =
      let user = truthy r.user_id in
      let saved = save_for user story w in
      let (unlocked, after) = unlock_for a user saved in
      (
        record unlocked {
          events =
              unlocked.events
              ++ (beat_events r story 0 story.content.paragraphs ++ announce r user story);
        },
        record {
          story = story;
          estimated_reading_time = estimated_reading_time story;
          audio_url = story.audio_url;
          newly_unlocked = without before after;
        },
      )

  abbrev pub finish :
      Answers
      → Request
      → List DreamCompanion
      → Option Story
      → World port.Store
      → World port.Store × Option Response
  finish a r before none w = (w, none)
  finish a r before (some story) w = let done = deliver a r before story w in (done.0, some done.1)

  -- The world when the session is over and the stream has ended.
  abbrev pub streamed : Answers → Request → World port.Store → Session port.Store → World port.Store
  streamed a r unlocked done = record unlocked {
    sessions = done.store;
    events = unlocked.events ++ chunk_events a r a.stream;
  }

  -- The story after the session; `none` is an exception of the session, before the stream begins.
  abbrev pub after_session :
      Answers
      → Request
      → World port.Store × List DreamCompanion
      → Option (Session port.Store)
      → World port.Store × Option Response
  after_session a r (unlocked, before) none = (unlocked, none)
  after_session a r (unlocked, before) (some done) =
      finish a r before (story_of a r (generated a)) (streamed a r unlocked done)

  -- `execute`: the world afterwards, and the response; `none` is an exception.
  unfoldable pub generate_story :
      Answers → Request → World port.Store → World port.Store × Option Response
  generate_story a r w =
      let opened = unlock_for a (truthy r.user_id) w in
      if validate_request r then after_session a r opened (conducted a r opened.0) else (w, none)
