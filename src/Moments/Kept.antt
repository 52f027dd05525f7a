-- ===== src/Moments/Kept.antt =====
-- What becomes of the moments when a session is analysed.
use dreamweaver.Prelude.{
  ℕ, ◌≤◌, String, Option, none, some, Bool, true, false, ◌≡◌, refl, ◌⊎◌, inl, inr, List, [], ◌∷◌,
  ◌++◌, arith, if◌then◌else◌, Bool-cases,
}
use dreamweaver.Story.{Story}
use dreamweaver.Verification.{
  VerifiableContent, ModelAnswer, Review, VerificationResult, verify, passed_rule_check,
  perform_model_check,
}
use dreamweaver.Moments.{
  Moment, Analysis, Ports, Curation, analyze_session, is_significant, item_of, keep, keep_verified,
  curate_anchored, curate, anchor, analyse_found, transcript,
}

-- The moment passes the static rules, and the model approves it with a confidence of 80 or more.
abbrev pub IsVerified : Ports → Moment → Type 0
IsVerified p m =
    (passed_rule_check (item_of m) ≡ true)
    × (a : ModelAnswer) × (p.validate (item_of m) ≡ some a)
    × (a.approved ≡ true)
    × (80 ≤ a.confidence)

abbrev pub Outcome : Ports → Curation → Curation → Type 0
Outcome p c c' =
    (c'.moments ≡ c.moments) ⊎ ((m : Moment) × (c'.moments ≡ c.moments ++ m ∷ []) × IsVerified p m)

verify-approved :
    (item : VerifiableContent) (o : Option ModelAnswer) (queue : List Review)
    → (verify item o queue).1.approved ≡ true
    → (passed_rule_check item ≡ true)
      × (a : ModelAnswer) × (o ≡ some a)
      × (a.approved ≡ true)
      × (80 ≤ a.confidence)
unfolding verify perform_model_check
verify-approved item none queue approved = ground arith
verify-approved item (some a) queue approved = (ground arith, a, refl, ground arith, ground arith)

keep_verified-Outcome :
    (p : Ports) (m : Moment) (queue : List Review) (r : VerificationResult) (c : Curation)
    → (r.approved ≡ true → IsVerified p m)
    → Outcome p c (keep_verified p m (queue, r) c)
keep_verified-Outcome p m queue r c verified = elim (Bool-cases r.approved) [
  | inl good ↦ elim (Bool-cases p.saves) [
    | inl saved ↦ inr (m, rw (good, saved), verified good)
    | inr lost ↦ inl (rw (good, lost))
  ]
  | inr bad ↦ inl (rw bad)
]

keep-Outcome : (p : Ports) (m : Moment) (c : Curation) → Outcome p c (keep p m c)
keep-Outcome p m c =
    let done = verify (item_of m) (p.validate (item_of m)) c.queue in
    keep_verified-Outcome p m done.0 done.1 c
      (verify-approved (item_of m) (p.validate (item_of m)) c.queue)

curate_anchored-Outcome :
    (p : Ports) (id user : String) (now : ℕ) (a : Analysis) (s : Option (Story × String))
    (c : Curation)
    → Outcome p c (curate_anchored p id user now a s c)
curate_anchored-Outcome p id user now a none c = inl refl
curate_anchored-Outcome p id user now a (some (s, url)) c =
    keep-Outcome p
      (record {
        id = id;
        user_id = user;
        story_id = s.id;
        media_url = url;
        description = a.description;
        created_at = now;
      })
      c

if-Outcome :
    (p : Ports) (c : Curation) (b : Bool) (c' : Curation)
    → Outcome p c c'
    → Outcome p c (if b then c' else c)
if-Outcome p c true c' o = o
if-Outcome p c false c' o = inl refl

curate-Outcome :
    (p : Ports) (id user : String) (now : ℕ) (a : Option Analysis) (c : Curation)
    → Outcome p c (curate p id user now a c)
curate-Outcome p id user now none c = inl refl
curate-Outcome p id user now (some a) c =
    if-Outcome p c (is_significant a) (curate_anchored p id user now a (anchor p.recent_after) c)
      (curate_anchored-Outcome p id user now a (anchor p.recent_after) c)

analyse_found-Outcome :
    (p : Ports) (id user : String) (now : ℕ) (t : Option String) (c : Curation)
    → Outcome p c (analyse_found p id user now t c)
analyse_found-Outcome p id user now none c = inl refl
analyse_found-Outcome p id user now (some t) c = curate-Outcome p id user now (p.analyse t) c

-- Whatever the ports answer, no moment is lost and at most one is added, at the end; one that is
-- added passes the static rules, and the model has approved it with a confidence of 80 or more.
pub analyze_session-verified :
    (p : Ports) (id user : String) (now : ℕ) (c : Curation)
    → Outcome p c (analyze_session p id user now c)
unfolding analyze_session
analyze_session-verified p id user now c =
    analyse_found-Outcome p id user now (transcript p.memories p.recent_before) c
