-- ===== src/Consolidation/Ends.antt =====
-- When memories are summarised.
use dreamweaver.Prelude.{
  ℕ, zero, suc, take, ◌==◌, if◌then◌else◌, ◌+◌, ◌≤◌, ◌<◌, String, Option, none, some, true, false,
  List, [], ◌∷◌, All, length, leb, ◌≡◌, refl, ap, arith, str_eq, truthy,
}
use dreamweaver.Session.{SessionState}
use dreamweaver.AgentMemory.{MemoryRecord, AgentContext, episodic, matches, select, retrieve}
use dreamweaver.Story.{Story}
use dreamweaver.Generation.{
  Request, Published, chunk_generated, beat_completed, generation_completed, beat_events,
}
use dreamweaver.Consolidation.{SemanticFact, summarize_session, handle_story_beat}

none_selected :
    (query s : String) (context : AgentContext) (ms : List MemoryRecord)
    → truthy context.session_id ≡ some s
    → All (λ (m : MemoryRecord). m.session ≡ none) ms
    → select (matches query context (some episodic)) ms ≡ []
unfolding matches
none_selected query s context [] e h = refl
none_selected query s context (m ∷ ms) e (p, h) =
    let other : matches query context (some episodic) m ≡ false = ground (arith, e, p) in
    rw other (none_selected query s context ms e h)

-- Where no memory says of which session it is, as those that the tool for saving memories stores,
-- the end of a session summarises nothing, whatever the model would find.
pub nothing_summarised :
    (new_id : ℕ → String) (now : ℕ) (extract : String → Option (List SemanticFact))
    (session user : String) (memories : List MemoryRecord)
    → str_eq session "" ≡ false
    → All (λ (m : MemoryRecord). m.session ≡ none) memories
    → summarize_session new_id now extract session user memories ≡ memories
unfolding summarize_session retrieve
nothing_summarised new_id now extract session user memories full h =
    let context : AgentContext = record { user_id = some user; session_id = some session } in
    rw (none_selected "*" session context memories (rw full refl) h) refl

abbrev with_target : Option (String × String) → List (String × String) → List (String × String)
with_target none rest = rest
with_target (some t) rest = t ∷ rest

-- The sessions that are summarised because of the events of a generated story, where the bus
-- delivers each of them to the consolidator.
unfoldable pub summarised :
    (String → Option SessionState) → String → List Published → List (String × String)
summarised get request_id [] = []
summarised get request_id (chunk_generated u s i t ∷ es) = summarised get request_id es
summarised get request_id (generation_completed u s i ∷ es) = summarised get request_id es
summarised get request_id (beat_completed u s i n ∷ es) =
    with_target (handle_story_beat get i n request_id) (summarised get request_id es)

last_beat :
    (get : String → Option SessionState) (i n : ℕ) (request_id : String) (state : SessionState)
    → get request_id ≡ some state
    → str_eq request_id "" ≡ false
    → str_eq request_id "unknown" ≡ false
    → str_eq state.snapshot.user_id "" ≡ false
    → n ≤ i + 1
    → handle_story_beat get i n request_id ≡ some (request_id, state.snapshot.user_id)
unfolding handle_story_beat
last_beat get i n request_id state there full other user last =
    let done : leb n (i + 1) ≡ true = ground (arith, last) in
    rw (done, full) (rw other (rw there (rw user refl)))

early_beat :
    (get : String → Option SessionState) (i n : ℕ) (request_id : String)
    → i + 1 < n
    → handle_story_beat get i n request_id ≡ none
unfolding handle_story_beat
early_beat get i n request_id early =
    let more : leb n (i + 1) ≡ false = ground (arith, early) in rw more refl

zero_eq_suc : (n : ℕ) → (0 == suc n) ≡ false
zero_eq_suc n = ground arith

suc_eq_suc : (m n : ℕ) → (suc m == suc n) ≡ (m == n)
suc_eq_suc m n = ground arith

-- Of the events for the paragraphs from the `i`-th on, the first `k` summarise the session exactly if
-- they are all.
beats-summarised :
    (get : String → Option SessionState) (request_id : String) (r : Request) (story : Story)
    (state : SessionState) (i k : ℕ) (p : String) (ps : List String)
    → get request_id ≡ some state
    → str_eq request_id "" ≡ false
    → str_eq request_id "unknown" ≡ false
    → str_eq state.snapshot.user_id "" ≡ false
    → i + length (p ∷ ps) ≡ length story.content.paragraphs
    → k ≤ length (p ∷ ps)
    → summarised get request_id (take k (beat_events r story i (p ∷ ps)))
      ≡ (if k == length (p ∷ ps) then (request_id, state.snapshot.user_id) ∷ [] else [])
unfolding summarised beat_events
beats-summarised get request_id r story state i zero p ps there full other user size short =
    rw (zero_eq_suc (length ps)) refl
beats-summarised get request_id r story state i (suc zero) p [] there full other user size short =
    rw
      (last_beat get i (length story.content.paragraphs) request_id state there full other user
        (omega (arith, size)))
      refl
beats-summarised get request_id r story state i (suc (suc k)) p [] there full other user size
      short =
    absurd (omega (arith, short))
beats-summarised get request_id r story state i (suc k) p (q ∷ ps) there full other user size
      short =
    rw
      (
        early_beat get i (length story.content.paragraphs) request_id (omega (arith, size)),
        suc_eq_suc k (length (q ∷ ps)),
      )
      (beats-summarised get request_id r story state (i + 1) k q ps there full other user
        (omega (arith, size)) (omega (arith, short)))

-- The beats of a story with at least one paragraph summarise its session exactly once, and do so with
-- the last beat: of the first `k` beats, all of them summarise it, and fewer do not. The session is one
-- that is known with a user that is not empty, and its identifier is that of the request, neither
-- empty nor "unknown".
pub beats_summarise_once :
    (get : String → Option SessionState) (request_id : String) (r : Request) (story : Story)
    (state : SessionState) (k : ℕ)
    → get request_id ≡ some state
    → str_eq request_id "" ≡ false
    → str_eq request_id "unknown" ≡ false
    → str_eq state.snapshot.user_id "" ≡ false
    → 0 < length story.content.paragraphs
    → k ≤ length story.content.paragraphs
    → summarised get request_id (take k (beat_events r story 0 story.content.paragraphs)) ≡ (
        if k == length story.content.paragraphs
        then (request_id, state.snapshot.user_id) ∷ []
        else [])
beats_summarise_once get request_id r story state k there full other user some_text short =
    go story.content.paragraphs refl some_text short
  where
    go :
        (ps : List String)
        → story.content.paragraphs ≡ ps
        → 0 < length ps
        → k ≤ length ps
        → summarised get request_id (take k (beat_events r story 0 ps))
          ≡ (if k == length ps then (request_id, state.snapshot.user_id) ∷ [] else [])
    go [] e h short = absurd (omega arith)
    go (p ∷ ps) e h short =
        beats-summarised get request_id r story state 0 k p ps there full other user
          (omega (arith, ap (length {A = String}) e)) short
