-- ===== src/Moments.antt =====
-- Looking for a golden moment in a session
-- (api/src/application/use-cases/AnalyzeSessionForMomentsUseCase.ts). The answers of the ports are
-- parameters; confidences are in hundredths.
pub mod Kept
use Prim.Native.String
use dreamweaver.Prelude.{
  ℕ, String, Option, none, some, Bool, true, false, not, ◌&&◌, List, [], ◌∷◌, ◌++◌, leb, str_eq,
  trim, truthy, if◌then◌else◌,
}
use dreamweaver.Story.{Story}
use dreamweaver.Verification.{
  VerifiableContent, golden_moment, ModelAnswer, Review, VerificationResult, verify,
}

pub record Moment : Type 0 where
  pub id : String
  pub user_id : String
  pub story_id : String
  pub media_url : String
  pub description : String
  pub created_at : ℕ

-- What the model says of a transcript.
pub record Analysis : Type 0 where
  pub found : Bool
  pub description : String
  pub confidence : ℕ

-- The answers of the ports. `none` is a call that fails; for `analyse` also an answer that has not
-- the fields of the schema, with a confidence from 0 to 1.
pub record Ports : Type 0 where
  pub memories : Option (List String)
  pub recent_before : Option (List Story)
  pub recent_after : Option (List Story)
  pub analyse : String → Option Analysis
  pub validate : VerifiableContent → Option ModelAnswer
  pub saves : Bool

-- The moments that are kept, and the queue of the reviewers.
pub record Curation : Type 0 where
  pub moments : List Moment
  pub queue : List Review

-- `join('\n')`
unfoldable pub lines : List String → String
lines [] = ""
lines (l ∷ []) = l
lines (l ∷ k ∷ ls) = String.◌++◌ l (String.◌++◌ "\n" (lines (k ∷ ls)))

-- The text of a story that stands for memories.
unfoldable pub transcript_of : Story → String
unfolding lines
transcript_of s =
    String.◌++◌ "Story Title: "
      (String.◌++◌ s.title (String.◌++◌ "\n\n" (lines s.content.paragraphs)))

-- What is analysed; `none` is an exception or nothing to look at.
unfoldable pub transcript : Option (List String) → Option (List Story) → Option String
unfolding lines transcript_of
transcript none recent = none
transcript (some (m ∷ ms)) recent = some (lines (m ∷ ms))
transcript (some []) none = none
transcript (some []) (some []) = none
transcript (some []) (some (s ∷ ss)) = some (transcript_of s)

-- The test on the answer of the model.
unfoldable pub is_significant : Analysis → Bool
is_significant a = a.found && not (str_eq (trim a.description) "") && leb 60 a.confidence

-- The newest story and its audio.
abbrev pub anchor : Option (List Story) → Option (Story × String)
anchor none = none
anchor (some []) = none
anchor (some (s ∷ ss)) = elim (truthy s.audio_url) [ none ↦ none | some url ↦ some (s, url) ]

abbrev pub item_of : Moment → VerifiableContent
item_of m = record { type = golden_moment; description = some m.description }

abbrev pub keep_verified : Ports → Moment → List Review × VerificationResult → Curation → Curation
keep_verified p m (queue, r) c =
    if r.approved && p.saves
    then record { moments = c.moments ++ m ∷ []; queue = queue }
    else record c { queue = queue }

abbrev pub keep : Ports → Moment → Curation → Curation
keep p m c = keep_verified p m (verify (item_of m) (p.validate (item_of m)) c.queue) c

abbrev pub curate_anchored :
    Ports
    → (id user_id : String) (now : ℕ) → Analysis
    → Option (Story × String)
    → Curation
    → Curation
curate_anchored p id user now a none c = c
curate_anchored p id user now a (some (s, url)) c =
    keep p
      (record {
        id = id;
        user_id = user;
        story_id = s.id;
        media_url = url;
        description = a.description;
        created_at = now;
      })
      c

abbrev pub curate : Ports → (id user_id : String) (now : ℕ) → Option Analysis → Curation → Curation
curate p id user now none c = c
curate p id user now (some a) c =
    if is_significant a then curate_anchored p id user now a (anchor p.recent_after) c else c

abbrev pub analyse_found :
    Ports → (id user_id : String) (now : ℕ) → Option String → Curation → Curation
analyse_found p id user now none c = c
analyse_found p id user now (some text) c = curate p id user now (p.analyse text) c

-- `AnalyzeSessionForMomentsUseCase.execute`
unfoldable pub analyze_session : Ports → (id user_id : String) (now : ℕ) → Curation → Curation
unfolding transcript is_significant
analyze_session p id user now c =
    analyse_found p id user now (transcript p.memories p.recent_before) c
