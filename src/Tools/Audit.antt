-- ===== src/Tools/Audit.antt =====
-- What the calls of tools leave behind.
use dreamweaver.Prelude.{
  ℕ, String, Option, none, some, Bool, true, false, ◌≡◌, refl, ap, ◌∙◌, inl, inr, List, ◌∷◌,
  is_some, Bool-cases, Option-cases,
}
use dreamweaver.Story.{Story, StoryContent, create, from_raw_text}
use dreamweaver.Tools.{
  Checked, memory, sleep_status, suggestions, generated_story, Request, Response, Memory,
  AuditEntry, World, Services, validate, handle, write, execute_checked, execute, store_memory,
  save_story, checked_story, story_of,
}

-- The entry of the audit log for a request and its response.
abbrev pub entry : ℕ → Request → Bool → Response → AuditEntry
entry now r allowed response = record {
  request = r;
  allowed = allowed;
  result = response.result;
  error = response.error;
  occurred_at = now;
}

-- What the handlers leave as it is: the audit log; and, when the response has an error, everything.
record IsClean (w : World) (r : World × Response) : Type 0 where
  audit : r.0.audit ≡ w.audit
  undone : is_some r.1.error ≡ true → r.0 ≡ w

store_memory-IsClean : (o : Option String) (m : Memory) (w : World) → IsClean w (store_memory o m w)
store_memory-IsClean none m w = record { audit = refl; undone = λ e. absurd (cc) }
store_memory-IsClean (some message) m w = record { audit = refl; undone = λ e. refl }

save_story-IsClean :
    (services : Services) (o : Option String) (s : Story) (w : World)
    → IsClean w (save_story services o s w)
save_story-IsClean services none s w = record { audit = refl; undone = λ e. absurd (cc) }
save_story-IsClean services (some message) s w = record { audit = refl; undone = λ e. refl }

checked_story-IsClean :
    (services : Services) (o : Option Story) (w : World) → IsClean w (checked_story services o w)
checked_story-IsClean services none w = record { audit = refl; undone = λ e. refl }
checked_story-IsClean services (some s) w = save_story-IsClean services services.save_error s w

story_of-IsClean :
    (services : Services) (now : ℕ) (r : Request) (title : String) (theme : Option String)
    (content : Option StoryContent) (w : World)
    → IsClean w (story_of services now r title theme content w)
story_of-IsClean services now r title theme none w = record { audit = refl; undone = λ e. refl }
story_of-IsClean services now r title theme (some content) w =
    checked_story-IsClean services (create services.is_uuid services.is_url _) w

handle-IsClean :
    (services : Services) (now : ℕ) (r : Request) (c : Checked) (w : World)
    → IsClean w (handle services now r c w)
unfolding handle
handle-IsClean services now r (memory content type) w =
    store_memory-IsClean services.store_error _ w
handle-IsClean services now r sleep_status w = record { audit = refl; undone = λ e. refl }
handle-IsClean services now r suggestions w = elim (Option-cases services.theme_stats) [
  | inl e ↦ rw e (record { audit = refl; undone = λ e'. refl })
  | inr (stats, e) ↦ rw e (record { audit = refl; undone = λ e'. refl })
]
handle-IsClean services now r (generated_story title content theme) w =
    elim (Bool-cases services.has_repository) [
      | inl e ↦ rw e (story_of-IsClean services now r title theme (from_raw_text content) w)
      | inr e ↦ rw e (record { audit = refl; undone = λ e'. refl })
    ]

write-audit :
    (now : ℕ) (r : Request) (allowed : Bool) (response : Response) (w : World)
    (log : List AuditEntry)
    → w.audit ≡ some log
    → (write now r allowed response w).audit ≡ some (entry now r allowed response ∷ log)
write-audit now r allowed response w log e = rw e refl

execute_checked-audit :
    (services : Services) (now : ℕ) (r : Request) (o : Option Checked) (w : World)
    (log : List AuditEntry)
    → w.audit ≡ some log
    → (let done = execute_checked services now r o w in
        done.0.audit ≡ some (entry now r (is_some o) done.1 ∷ log))
execute_checked-audit services now r none w log e = write-audit now r false _ w log e
execute_checked-audit services now r (some c) w log e =
    let handled = handle services now r c w in
    write-audit now r true handled.1 handled.0 log ((handle-IsClean services now r c w).audit ∙ e)

-- Every call, allowed or not, failed or not, leaves exactly one entry in the audit log, if there
-- is one: it says whether the arguments were accepted, and has the result and the error that the
-- caller gets.
pub execute_audited :
    (services : Services) (now : ℕ) (r : Request) (w : World) (log : List AuditEntry)
    → w.audit ≡ some log
    → (let done = execute services now r w in
        done.0.audit ≡ some (entry now r (is_some (validate r.call)) done.1 ∷ log))
unfolding execute
execute_audited services now r w log e =
    execute_checked-audit services now r (validate r.call) w log e

execute_checked-undone :
    (services : Services) (now : ℕ) (r : Request) (o : Option Checked) (w : World)
    → (let done = execute_checked services now r o w in
        is_some done.1.error ≡ true → (done.0.memories ≡ w.memories) × (done.0.stories ≡ w.stories))
execute_checked-undone services now r none w e = (refl, refl)
execute_checked-undone services now r (some c) w e =
    let same = (handle-IsClean services now r c w).undone e in
    (ap (λ (v : World). v.memories) same, ap (λ (v : World). v.stories) same)

-- A call that returns an error, whether its arguments were refused or its tool failed, has stored no
-- memory and no story.
pub execute_undone :
    (services : Services) (now : ℕ) (r : Request) (w : World)
    → is_some (execute services now r w).1.error ≡ true
    → ((execute services now r w).0.memories ≡ w.memories)
      × ((execute services now r w).0.stories ≡ w.stories)
unfolding execute
execute_undone services now r w e = execute_checked-undone services now r (validate r.call) w e
