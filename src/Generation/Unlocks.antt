-- ===== src/Generation/Unlocks.antt =====
-- The companion that the third story of a child brings.
use dreamweaver.Prelude.{
  ℕ, ◌+◌, String, Option, none, some, true, false, List, [], ◌∷◌, Dict, lookup, any, All, length,
  leb, ◌≡◌, refl, ◌∙◌, sym, ap, arith, str_eq, eq_refl, eq_iff, truthy, Bool-cases, inl, inr,
}
use dreamweaver.Companions.{DreamCompanion, check_unlocks, available_companions, blocks, with_date}
use dreamweaver.Companions.Collected.{owned, due, lookup-saved, check_unlocks-owned}
use dreamweaver.Conductor.{SessionPort}
use dreamweaver.Session.Store.{shift}
use dreamweaver.Story.{Story}
use dreamweaver.Generation.Delivery.{generate_story-some}
use dreamweaver.Generation.Titles.{make_story-kept, response_story}
use dreamweaver.Generation.{
  Request, World, Answers, Response, generated, story_from, generate_story, story_of, finish,
  streamed, deliver, stories_of, upsert, has_id, without, unlock_for,
}

has_id-with_date :
    (id : String) (c : DreamCompanion) (o : Option ℕ) (rest : List DreamCompanion)
    → str_eq c.id id ≡ false
    → has_id id (with_date c o rest) ≡ has_id id rest
has_id-with_date id c none rest h = refl
has_id-with_date id c (some at) rest h = ground (arith, h)

has_id-owned :
    (now count : ℕ) (blocked : List String) (saved : Dict ℕ) (id : String)
    (cs : List DreamCompanion)
    → All (λ (c : DreamCompanion). str_eq c.id id ≡ false) cs
    → has_id id (owned now count blocked saved cs) ≡ false
unfolding owned
has_id-owned now count blocked saved id [] h = refl
has_id-owned now count blocked saved id (c ∷ cs) (other, h) =
    let rest = has_id-owned now count blocked saved id cs h in
    elim (Bool-cases (blocks blocked c)) [
      | inl b ↦ rw b rest
      | inr b ↦
          rw b (has_id-with_date id c (due now count blocked c (lookup c.id saved)) _ other ∙ rest)
    ]

-- Luna is among the companions that are returned exactly if there are three stories, where she was
-- not unlocked before and is not blocked.
has_luna :
    (now count : ℕ) (blocked : List String) (saved : Dict ℕ)
    → lookup "c_luna" saved ≡ none
    → any (str_eq "c_luna") blocked ≡ false
    → has_id "c_luna" (check_unlocks now count blocked saved).1 ≡ leb 3 count
unfolding owned
has_luna now count blocked saved fresh free =
    ap (has_id "c_luna") (check_unlocks-owned now count blocked saved)
    ∙ rw (free, fresh)
        (elim (Bool-cases (leb 3 count)) [
          | inl enough ↦ rw enough refl
          | inr few ↦ rw few (
              has_id-owned now count blocked saved "c_luna" (shift available_companions)
                (refl, (refl, tt)))
        ])

luna_not_yet :
    (now : ℕ) (blocked : List String) (saved : Dict ℕ)
    → lookup "c_luna" saved ≡ none
    → lookup "c_luna" (check_unlocks now 2 blocked saved).0 ≡ none
luna_not_yet now blocked saved fresh =
    lookup-saved now 2 blocked saved "c_luna" ∙ rw fresh (ground arith)

has_id-without :
    (id : String) (before cs : List DreamCompanion)
    → has_id id before ≡ false
    → has_id id (without before cs) ≡ has_id id cs
has_id-without id before [] h = refl
has_id-without id before (c ∷ cs) h = ground (arith, eq_iff c.id id, has_id-without id before cs h)

length-upsert :
    (user : String) (story : Story) (stories : List Story)
    → str_eq story.owner_id user ≡ true
    → any (λ (s : Story). str_eq s.id story.id) stories ≡ false
    → length (stories_of user (upsert story stories)) ≡ length (stories_of user stories) + 1
length-upsert user story [] own new = ground (arith, own)
length-upsert user story (s ∷ ss) own new =
    ground (arith, own, new, length-upsert user story ss own)

-- The owner and the identifier of a story that is made.
story_of-owner :
    (a : Answers) (r : Request) (user : String) (o : Option (String × String)) (story : Story)
    → truthy r.user_id ≡ some user
    → story_of a r o ≡ some story
    → (story.owner_id ≡ user) × (story.id ≡ a.story_id)
unfolding story_from
story_of-owner a r user none story who made = absurd (cc made)
story_of-owner a r user (some g) story who made =
    let kept = (make_story-kept a r g story made).1 in
    (ap (λ (s : Story). s.owner_id) (sym kept) ∙ rw who refl, ap (λ (s : Story). s.id) (sym kept))

delivered_luna :
    (port : SessionPort) (a : Answers) (r : Request) (w : World port.Store) (user : String)
    (story : Story)
    → truthy r.user_id ≡ some user
    → length (stories_of user w.stories) ≡ 2
    → any (λ (s : Story). str_eq s.id story.id) w.stories ≡ false
    → str_eq story.owner_id user ≡ true
    → lookup "c_luna" w.unlocks ≡ none
    → any (str_eq "c_luna") a.blocked ≡ false
    → (start : World port.Store) → start.stories ≡ w.stories
    → start.unlocks ≡ (check_unlocks a.now 2 a.blocked w.unlocks).0
    → has_id "c_luna"
        (deliver port a r
          (check_unlocks a.now 2 a.blocked w.unlocks).1
          story
          start).1.newly_unlocked
      ≡ true
unfolding deliver
delivered_luna port a r w user story who two new own fresh free start same unlocked =
    let before = check_unlocks a.now 2 a.blocked w.unlocks in
    let three : length (stories_of user (upsert story w.stories)) ≡ 3 =
      omega (arith, length-upsert user story w.stories own new, two) in
    rw (who, same, unlocked, three)
      (has_id-without "c_luna" before.1 _ (has_luna a.now 2 a.blocked w.unlocks fresh free)
        ∙ has_luna a.now 3 a.blocked before.0 (luna_not_yet a.now a.blocked w.unlocks fresh) free)

-- A user with two stories gets Luna with the third one that is generated, as newly unlocked, if she was
-- not unlocked before and no moderator blocks her.
pub third_story_unlocks_luna :
    (port : SessionPort) (a : Answers) (r : Request) (w : World port.Store) (user : String)
    (resp : Response)
    → truthy r.user_id ≡ some user
    → length (stories_of user w.stories) ≡ 2
    → any (λ (s : Story). str_eq s.id a.story_id) w.stories ≡ false
    → lookup "c_luna" w.unlocks ≡ none
    → any (str_eq "c_luna") a.blocked ≡ false
    → (generate_story port a r w).1 ≡ some resp
    → has_id "c_luna" resp.newly_unlocked ≡ true
third_story_unlocks_luna port a r w user resp who two new fresh free h =
    let opened = unlock_for port a (truthy r.user_id) w in
    let (session, finished) = generate_story-some port a r w resp h in
    let made = response_story port a r w resp h in
    let own = story_of-owner a r user (generated a) resp.story who made in
    let start = streamed port a r opened.0 session in
    let done : (finish port a r opened.1 (some resp.story) start).1 ≡ some resp =
      ap (λ (o : Option Story). (finish port a r opened.1 o start).1) (sym made) ∙ finished in
    let first : opened.1 ≡ (check_unlocks a.now 2 a.blocked w.unlocks).1 = rw (who, two) refl in
    let same : start.stories ≡ w.stories = rw who refl in
    let unlocked : start.unlocks ≡ (check_unlocks a.now 2 a.blocked w.unlocks).0 =
      rw (who, two) refl in
    let mine : str_eq resp.story.owner_id user ≡ true = rw own.0 (eq_refl user) in
    let luna =
      delivered_luna port a r w user resp.story who two (rw own.1 new) mine fresh free start same
        unlocked in
    let response : (deliver port a r opened.1 resp.story start).1 ≡ resp = cc done in
    ap (λ (x : Response). has_id "c_luna" x.newly_unlocked) (sym response)
    ∙ ap
        (λ (cs : List DreamCompanion).
          has_id "c_luna" (deliver port a r cs resp.story start).1.newly_unlocked)
        first
    ∙ luna
