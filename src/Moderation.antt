-- ===== src/Moderation.antt =====
-- Content that users flag and admins review (api/src/domain/entities/Feedback.ts, and
-- FlagContentUseCase.ts and ReviewFeedbackUseCase.ts of api/src/application/use-cases). Calls of the
-- repositories do not fail.
pub mod Bans
use dreamweaver.Prelude.{
  ℕ, String, Option, none, some, Bool, true, false, List, [], ◌∷◌, ◌++◌, Dict, lookup, insert,
  str_eq, if◌then◌else◌,
}
use dreamweaver.Story.{Story, block}

pub data FeedbackType : Type 0 where
  flag rating correction : FeedbackType

pub data ContentType : Type 0 where
  story moment character conversation : ContentType

pub data FeedbackStatus : Type 0 where
  pending reviewed resolved : FeedbackStatus

pub data Resolution : Type 0 where
  dismissed action_taken : Resolution

pub record Feedback : Type 0 where
  pub id : String
  pub user_id : String
  pub content_id : String
  pub content_type : ContentType
  pub type : FeedbackType
  pub reason : Option String
  pub details : Option String
  pub status : FeedbackStatus
  pub resolution : Option Resolution
  pub admin_notes : Option String
  pub resolved_at : Option ℕ
  pub created_at : ℕ

-- A blocked piece of content in the moderation table.
pub record Block : Type 0 where
  pub content_id : String
  pub admin_id : String
  pub reason : Option String
  pub notes : Option String

-- The repositories; a moment is known by whether it is blocked.
pub record Repositories : Type 0 where
  pub feedback : Dict Feedback
  pub stories : Dict Story
  pub moments : Dict Bool
  pub characters : List Block

pub record FlagInput : Type 0 where
  pub user_id : String
  pub content_id : String
  pub content_type : ContentType
  pub type : FeedbackType
  pub reason : Option String
  pub details : Option String

-- The feedback that a flag creates.
abbrev pub flagged : String → ℕ → FlagInput → Feedback
flagged id now i = record {
  id = id;
  user_id = i.user_id;
  content_id = i.content_id;
  content_type = i.content_type;
  type = i.type;
  reason = i.reason;
  details = i.details;
  status = pending;
  resolution = none;
  admin_notes = none;
  resolved_at = none;
  created_at = now;
}

-- `FlagContentUseCase.execute`; `none` is an exception.
unfoldable pub flag_content :
    (id : String) (now : ℕ) → FlagInput → Repositories → Option (Repositories × Feedback)
flag_content id now i w =
    if str_eq i.user_id ""
    then none
    else if str_eq i.content_id ""
    then none
    else let f = flagged id now i in some (record w { feedback = insert id f w.feedback }, f)

-- `input.resolution`
pub data Decision : Type 0 where
  dismiss ban_content warning : Decision

pub record ReviewInput : Type 0 where
  pub feedback_id : String
  pub admin_id : String
  pub decision : Decision
  pub admin_notes : Option String

abbrev ban_story : String → Option Story → Repositories → Repositories × String
ban_story id none w = (w, "Content not found (already deleted?)")
ban_story id (some s) w = (record w { stories = insert id (block s) w.stories }, "Content blocked")

abbrev ban_moment : String → Option Bool → Repositories → Repositories × String
ban_moment id none w = (w, "Moment not found (already deleted?)")
ban_moment id (some blocked) w = (record w { moments = insert id true w.moments }, "Moment blocked")

-- Banning the content, by its type, and what is reported.
unfoldable pub ban : ReviewInput → Feedback → ContentType → Repositories → Repositories × String
ban i f story w = ban_story f.content_id (lookup f.content_id w.stories) w
ban i f moment w = ban_moment f.content_id (lookup f.content_id w.moments) w
ban i f character w = (
  record w {
    characters =
        w.characters
        ++ record {
          content_id = f.content_id;
          admin_id = i.admin_id;
          reason = f.reason;
          notes = i.admin_notes;
        }
          ∷ [];
  },
  "Character blocked",
)
ban i f conversation w = (w, "Content blocked")

abbrev act : Decision → ReviewInput → Feedback → Repositories → Repositories × String
act dismiss i f w = (w, "No action taken")
act warning i f w = (w, "No action taken")
act ban_content i f w = ban i f f.content_type w

abbrev resolution_of : Decision → Resolution
resolution_of dismiss = dismissed
resolution_of ban_content = action_taken
resolution_of warning = action_taken

abbrev pub settled : ℕ → ReviewInput → Feedback → Feedback
settled now i f = record f {
  status = resolved;
  resolution = some (resolution_of i.decision);
  admin_notes = i.admin_notes;
  resolved_at = some now;
}

abbrev review_found :
    ℕ → ReviewInput → Option Feedback → Repositories → Option (Repositories × Feedback × String)
review_found now i none w = none
review_found now i (some f) w =
    let done = act i.decision i f w in
    let f' = settled now i f in
    some (record done.0 { feedback = insert f.id f' done.0.feedback }, f', done.1)

-- `ReviewFeedbackUseCase.execute`; `none` is the exception for feedback that is not there.
unfoldable pub review_feedback :
    ℕ → ReviewInput → Repositories → Option (Repositories × Feedback × String)
unfolding ban
review_feedback now i w = review_found now i (lookup i.feedback_id w.feedback) w
