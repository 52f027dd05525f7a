-- ===== src/Generation/Titles.antt =====
-- Which texts become stories, and which do not.
use Prim.Native.Char.{Char}
use Prim.Native.String
use text.Mathlib.TextLemmas.{nil-append, cons-append}
use dreamweaver.Prelude.{
  String, Option, none, some, Bool, false, List, [], ◌∷◌, ◌≡◌, refl, ◌∙◌, ap, arith, truthy, str_eq,
  trim, utf16_length,
}
use dreamweaver.Companions.{DreamCompanion}
use dreamweaver.Conductor.{SessionPort}
use dreamweaver.Story.{Story, StoryContent, create, from_raw_text}
use dreamweaver.Generation.{
  Request, World, Answers, Response, generated, make_story, checked_text, generate_story,
  story_from, story_of, titled, finish, streamed, deliver, unlock_for,
}
use dreamweaver.Generation.Delivery.{generate_story-some}
use dreamweaver.Generation.Texts.{clean, accumulate, first_line, remove_first, title_from}

abbrev newline : Char
newline = "\n"

-- A title that was found stays, unless it is the placeholder.
accumulate-title :
    (chunks : List String) (text title : String)
    → str_eq title "Untitled Story" ≡ false
    → (accumulate chunks (text, title)).1 ≡ title
unfolding accumulate
accumulate-title [] text title h = refl
accumulate-title (c ∷ cs) text title h =
    rw (title_from-kept title (first_line (String.◌++◌ text c)) h, accumulate)
      (accumulate-title cs (String.◌++◌ text c) title h)
  where
    title_from-kept :
        (title : String) (line : Option String)
        → str_eq title "Untitled Story" ≡ false
        → title_from title line ≡ title
    title_from-kept title none h = refl
    title_from-kept title (some line) h = rw h refl

pub finish_story :
    (port : SessionPort) (a : Answers) (r : Request) (before : List DreamCompanion)
    (o : Option Story) (w : World port.Store) {resp : Response}
    → (finish port a r before o w).1 ≡ some resp
    → o ≡ some resp.story
unfolding deliver
finish_story port a r before none w h = absurd (cc h)
finish_story port a r before (some story) w {resp} h =
    let same : (deliver port a r before story w).1 ≡ resp = cc h in
    ap (λ (x : Response). some x.story) same

create-kept :
    (is_uuid is_url : String → Bool) (props story : Story)
    → create is_uuid is_url props ≡ some story
    → props ≡ story
unfolding create
create-kept is_uuid is_url props story h = ground (arith, h)

create-untitled :
    (is_uuid is_url : String → Bool) (props : Story)
    → props.title ≡ ""
    → create is_uuid is_url props ≡ none
unfolding create utf16_length
create-untitled is_uuid is_url props h = ground (arith, ap utf16_length h)

titled-kept :
    (a : Answers) (r : Request) (title : String) (o : Option StoryContent) (story : Story)
    → titled a r title o ≡ some story
    → (content : StoryContent) × (story_from a r title content ≡ story)
titled-kept a r title none story h = absurd (cc h)
titled-kept a r title (some content) story h =
    (content, create-kept a.is_uuid a.is_url (story_from a r title content) story h)

pub make_story-kept :
    (a : Answers) (r : Request) (g : String × String) (story : Story)
    → make_story a r g ≡ some story
    → (content : StoryContent) × (story_from a r g.1 content ≡ story)
unfolding make_story
make_story-kept a r (text, title) story made =
    titled-kept a r title (from_raw_text (clean (checked_text a r text))) story made

titled-untitled : (a : Answers) (r : Request) (o : Option StoryContent) → titled a r "" o ≡ none
unfolding story_from
titled-untitled a r none = refl
titled-untitled a r (some content) = create-untitled a.is_uuid a.is_url _ refl

-- The story that a response holds, and what was made into it.
pub response_story :
    (port : SessionPort) (a : Answers) (r : Request) (w : World port.Store) (resp : Response)
    → (generate_story port a r w).1 ≡ some resp
    → story_of a r (generated a) ≡ some resp.story
response_story port a r w resp h =
    let opened = unlock_for port a (truthy r.user_id) w in
    let (done, finished) = generate_story-some port a r w resp h in
    finish_story port a r opened.1 (story_of a r (generated a)) (streamed port a r opened.0 done)
      finished

make_story-untitled : (a : Answers) (r : Request) (text : String) → make_story a r (text, "") ≡ none
unfolding make_story
make_story-untitled a r text = titled-untitled a r (from_raw_text (clean (checked_text a r text)))

first_line-newline : (s : String) → first_line (String.◌++◌ "" (String.◌++◌ "\n" s)) ≡ some ""
unfolding first_line
first_line-newline s = rw (nil-append, cons-append newline "" s) refl

accumulate-blank :
    (chunk : String) (chunks : List String)
    → accumulate (String.◌++◌ "\n" chunk ∷ chunks) ("", "Untitled Story")
      ≡ accumulate chunks (String.◌++◌ "" (String.◌++◌ "\n" chunk), "")
unfolding accumulate remove_first trim
accumulate-blank chunk chunks =
    let longer = String.◌++◌ "" (String.◌++◌ "\n" chunk) in
    ap (λ (line : Option String). accumulate chunks (longer, title_from "Untitled Story" line))
      (first_line-newline chunk)

generated-blank :
    (a : Answers) (chunk : String) (chunks : List String)
    → a.broken ≡ false
    → a.stream ≡ String.◌++◌ "\n" chunk ∷ chunks
    → (text : String) × (generated a ≡ some (text, ""))
unfolding generated
generated-blank a chunk chunks whole stream =
    let longer = String.◌++◌ "" (String.◌++◌ "\n" chunk) in
    let rest = accumulate-title chunks longer "" refl in
    let text = (accumulate chunks (longer, "")).0 in
    (
      text,
      rw (whole, stream)
          (ap some (accumulate-blank chunk chunks ∙ ap (λ (title : String). (text, title)) rest)),
    )

Option-cases : {A : Type 0} → (o : Option A) → ((x : A) → o ≡ some x → ⊥) → o ≡ none
Option-cases none h = refl
Option-cases (some x) h = absurd (h x refl)

-- A stream whose first chunk begins with a line break gives no story, whatever comes after it: its
-- title is the empty text, which the story does not take.
pub blank_first_line_fails :
    (port : SessionPort) (a : Answers) (r : Request) (w : World port.Store) (chunk : String)
    (chunks : List String)
    → a.broken ≡ false
    → a.stream ≡ String.◌++◌ "\n" chunk ∷ chunks
    → (generate_story port a r w).1 ≡ none
blank_first_line_fails port a r w chunk chunks whole stream =
    let blank = generated-blank a chunk chunks whole stream in
    let none_made : story_of a r (generated a) ≡ none =
      ap (story_of a r) blank.1 ∙ make_story-untitled a r blank.0 in
    Option-cases (generate_story port a r w).1
      (λ resp h. cc (none_made, response_story port a r w resp h))
