-- ===== src/Consolidation.antt =====
-- What becomes of the memories of a session at its end
-- (api/src/application/handlers/SessionConsolidator.ts and
-- api/src/domain/services/MemorySummarizationService.ts), over the volatile memory. The facts that the
-- model finds in a transcript are a parameter; `none` is a failure. The anchor that is stored with a
-- fact has no session in the place where `retrieve` looks for one.
pub mod Ends
use Prim.Native.String
use dreamweaver.Prelude.{
  ℕ, zero, suc, ◌+◌, String, Option, none, some, Bool, true, false, List, [], ◌∷◌, leb, str_eq,
  either, or_else, truthy, if◌then◌else◌,
}
use dreamweaver.Goal.{show}
use dreamweaver.Session.{SessionState}
use dreamweaver.AgentMemory.{MemoryRecord, AgentContext, episodic, semantic, retrieve, store}

pub record SemanticFact : Type 0 where
  pub fact : String
  pub confidence : ℕ
  pub line_reference : ℕ

abbrev join_line : String → String → String
join_line line rest = if str_eq rest "" then line else String.◌++◌ line (String.◌++◌ "\n" rest)

-- The lines of the transcript, from the one with the number `n` on.
unfoldable pub transcript : ℕ → List MemoryRecord → String
transcript n [] = ""
transcript n (m ∷ ms) =
    let rest = transcript (n + 1) ms in
    join_line (String.◌++◌ "[Line " (String.◌++◌ (show n) (String.◌++◌ "] " m.content))) rest

module _ (new_id : ℕ → String) (now : ℕ) where
  -- The loop that stores the facts.
  unfoldable pub store_facts :
      AgentContext → ℕ → List SemanticFact → List MemoryRecord → List MemoryRecord
  store_facts context n [] memories = memories
  store_facts context n (f ∷ fs) memories =
      store_facts context (n + 1) fs (store (new_id n) now f.fact semantic context none memories)

  abbrev learn : AgentContext → Option (List SemanticFact) → List MemoryRecord → List MemoryRecord
  learn context none memories = memories
  learn context (some facts) memories = store_facts context 0 facts memories

  abbrev learn_from :
      (extract : String → Option (List SemanticFact))
      → AgentContext
      → (raw : List MemoryRecord) → List MemoryRecord
      → List MemoryRecord
  learn_from extract context [] memories = memories
  learn_from extract context (m ∷ ms) memories =
      learn context (extract (transcript 0 (m ∷ ms))) memories

  -- `summarizeSession`
  unfoldable pub summarize_session :
      (extract : String → Option (List SemanticFact))
      → (session_id user_id : String) → List MemoryRecord
      → List MemoryRecord
  unfolding store_facts
  summarize_session extract session_id user_id memories =
      let context : AgentContext = record {
        user_id = some user_id;
        session_id = some session_id;
      } in
      learn_from extract context (retrieve "*" context (some episodic) 50 memories) memories

-- A session and a user whose memories are summarised.
abbrev known : String → Option String → Option (String × String)
known session none = none
known session (some user) = some (session, user)

abbrev user_of_state : Option SessionState → Option String
user_of_state none = none
user_of_state (some s) = truthy (some s.snapshot.user_id)

abbrev sleep_known :
    (get : String → Option SessionState) (context_user : Option String)
    → Option String
    → Option (String × String)
sleep_known get context_user none = none
sleep_known get context_user (some session) =
    if str_eq session "unknown"
    then none
    else known session (either context_user (user_of_state (get session)))

-- `handleSleepDetected`: what is summarised, if anything.
unfoldable pub handle_sleep_detected :
    (get : String → Option SessionState) (context_session context_user : Option String)
    (request_id : String)
    → Option (String × String)
handle_sleep_detected get context_session context_user request_id =
    sleep_known get context_user (truthy (either context_session (some request_id)))

-- `handleStoryBeat`: only the last beat of a story counts.
unfoldable pub handle_story_beat :
    (get : String → Option SessionState) (beat_index total_beats : ℕ) (request_id : String)
    → Option (String × String)
handle_story_beat get beat_index total_beats request_id =
    if leb total_beats (beat_index + 1)
    then sleep_known get none (truthy (some request_id))
    else none
