-- ===== src/Moderation/Bans.antt =====
-- What a review does to content.
use dreamweaver.Prelude.{
  ℕ, String, Option, some, false, ◌≡◌, refl, lookup, insert, lookup-insert_self, str_eq,
}
use dreamweaver.Story.{Story, block, is_readable}
use dreamweaver.Moderation.{
  Feedback, Repositories, settled, flagged, ReviewInput, FlagInput, story, conversation,
  ban_content, review_feedback, flag_content, ban, resolved, action_taken,
}

-- A story that a user flags and that an admin bans afterwards, whatever the reason and at whatever
-- times, is still there but can no longer be read, and the feedback is resolved with an action taken.
-- The flag names a user and a piece of content.
pub flagged_story_banned :
    (now later : ℕ) (id admin : String) (notes : Option String) (i : FlagInput) (w : Repositories)
    (s : Story)
    → str_eq i.user_id "" ≡ false
    → str_eq i.content_id "" ≡ false
    → i.content_type ≡ story
    → lookup i.content_id w.stories ≡ some s
    → (w' final : Repositories) × (f g : Feedback) × (flag_content id now i w ≡ some (w', f))
      × (review_feedback later
            (record {
              feedback_id = id;
              admin_id = admin;
              decision = ban_content;
              admin_notes = notes;
            })
            w'
          ≡ some (final, g, "Content blocked"))
      × (lookup i.content_id final.stories ≡ some (block s))
      × (is_readable (block s) ≡ false)
      × (lookup id final.feedback ≡ some g)
      × (g.status ≡ resolved)
      × (g.resolution ≡ some action_taken)
unfolding flag_content review_feedback ban is_readable
flagged_story_banned now later id admin notes i w s user content kind there =
    let f = flagged id now i in
    let r : ReviewInput = record {
      feedback_id = id;
      admin_id = admin;
      decision = ban_content;
      admin_notes = notes;
    } in
    let g = settled later r f in
    let w1 : Repositories = record w { feedback = insert id f w.feedback } in
    let w2 : Repositories = record w1 {
      stories = insert i.content_id (block s) w.stories;
      feedback = insert id g w1.feedback;
    } in
    (
      w1,
      w2,
      f,
      g,
      rw (user, content),
      rw (lookup-insert_self id f w.feedback, kind, there),
      lookup-insert_self i.content_id (block s) w.stories,
      refl,
      lookup-insert_self id g w1.feedback,
      refl,
      refl,
    )

-- Banning a conversation is reported as done, but nothing is blocked: stories, moments and
-- characters are as they were.
pub banned_conversation_stays :
    (now : ℕ) (i : ReviewInput) (w : Repositories) (f : Feedback)
    → lookup i.feedback_id w.feedback ≡ some f
    → f.content_type ≡ conversation
    → i.decision ≡ ban_content
    → (final : Repositories) × (g : Feedback) × (review_feedback now i w
        ≡ some (final, g, "Content blocked"))
      × (final.stories ≡ w.stories)
      × (final.moments ≡ w.moments)
      × (final.characters ≡ w.characters)
unfolding review_feedback ban
banned_conversation_stays now i w f there kind bans = (
  record w { feedback = insert f.id (settled now i f) w.feedback },
  settled now i f,
  rw (there, bans, kind),
  refl,
  refl,
  refl,
)
