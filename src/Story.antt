-- ===== src/Story.antt =====
-- Stories (api/src/domain/entities/Story.ts and api/src/domain/value-objects/StoryContent.ts). The
-- checks of the library zod for identifiers and addresses are parameters.
pub mod Content
use Prim.Native.Char.{Char, code}
use Prim.Native.String
use dreamweaver.Prelude.{
  ℕ, suc, ◌+◌, ◌/◌, String, Option, none, some, Bool, true, false, not, ◌&&◌, ◌||◌, List, [], ◌∷◌,
  length, ltb, leb, ◌==◌, str_eq, or_else, trim, if◌then◌else◌, utf16_length, is_space,
}

pub data AudioHint : Type 0 where
  gentle excited whispered normal : AudioHint

pub record StoryChapter : Type 0 where
  pub title : String
  pub content : String
  pub audio_hint : Option AudioHint

pub record StoryContent : Type 0 where
  pub paragraphs : List String
  pub chapters : List StoryChapter
  pub sleep_score : ℕ

-- `StoryContent.create`; `none` is the exception.
unfoldable pub create_content :
    List String → Option (List StoryChapter) → Option ℕ → Option StoryContent
create_content [] chapters score = none
create_content (p ∷ ps) chapters score =
    some (record {
      paragraphs = p ∷ ps;
      chapters = or_else chapters [];
      sleep_score = or_else score 5;
    })

abbrev push : Char → List String → List String
push c [] = String.◌∷◌ c String.[] ∷ []
push c (s ∷ ss) = String.◌∷◌ c s ∷ ss

abbrev begins_with_newline : String → Bool
begins_with_newline String.[] = false
begins_with_newline (String.◌∷◌ c s) = code c == 10

-- `split(/\n\n+/)`; in the middle of a separator, `between` is true.
unfoldable split_from : Bool → String → List String
split_from between String.[] = "" ∷ []
split_from true (String.◌∷◌ c s) =
    let rest = split_from true s in
    let next = split_from false s in if code c == 10 then rest else push c next
split_from false (String.◌∷◌ c s) =
    let rest = split_from true s in
    let next = split_from false s in
    if (code c == 10) && begins_with_newline s then "" ∷ rest else push c next

-- `.map(p => p.trim()).filter(p => p.length > 0)`
unfoldable trimmed : List String → List String
unfolding trim
trimmed [] = []
trimmed (p ∷ ps) = let rest = trimmed ps in if str_eq (trim p) "" then rest else trim p ∷ rest

unfoldable pub from_raw_text : String → Option StoryContent
unfolding create_content split_from trimmed
from_raw_text text = create_content (trimmed (split_from false text)) none none

-- `getFullText`
unfoldable pub full_text : List String → String
full_text [] = ""
full_text (p ∷ []) = p
full_text (p ∷ q ∷ ps) = String.◌++◌ p (String.◌++◌ "\n\n" (full_text (q ∷ ps)))

-- The words of a text: a word begins where white space ends.
abbrev words_from : Bool → String → ℕ
words_from inside String.[] = 0
words_from inside (String.◌∷◌ c s) =
    let rest = words_from (not (is_space c)) s in
    if not inside && not (is_space c) then suc rest else rest

-- `getWordCount`: the paragraphs are joined by a space.
unfoldable pub word_count : StoryContent → ℕ
word_count content = count content.paragraphs
  where
    count : List String → ℕ
    count [] = 0
    count (p ∷ ps) = words_from false p + count ps

unfoldable pub is_bedtime_suitable : StoryContent → Bool
is_bedtime_suitable content = leb 7 content.sleep_score

pub data StoryStatus : Type 0 where
  generating completed failed blocked : StoryStatus

pub record Story : Type 0 where
  pub id : String
  pub title : String
  pub content : StoryContent
  pub theme : String
  pub owner_id : String
  pub status : StoryStatus
  pub created_at : ℕ
  pub generated_at : Option ℕ
  pub audio_url : Option String

-- `Story.create`; `none` is the exception of the schema.
unfoldable pub create : (is_uuid is_url : String → Bool) → Story → Option Story
create is_uuid is_url props =
    let titled = leb 1 (utf16_length props.title) && leb (utf16_length props.title) 255 in
    let audible : Bool = elim props.audio_url [ none ↦ true | some url ↦ is_url url ] in
    if is_uuid props.id && (titled && (is_uuid props.owner_id && audible)) then some props else none

abbrev pub with_status : StoryStatus → Story → Story
with_status status story = record story { status = status }

abbrev is_completed : StoryStatus → Bool
is_completed completed = true
is_completed generating = false
is_completed failed = false
is_completed blocked = false

-- `none` is the exception.
unfoldable pub complete : Story → Option Story
complete story = if is_completed story.status then none else some (with_status completed story)

abbrev pub fail : Story → Story
fail = with_status failed

abbrev pub block : Story → Story
block = with_status blocked

unfoldable pub is_readable : Story → Bool
is_readable story = is_completed story.status && ltb 0 (length story.content.paragraphs)

-- Minutes, at 150 words a minute.
unfoldable pub estimated_reading_time : Story → ℕ
unfolding word_count
estimated_reading_time story = (word_count story.content + 149) / 150
