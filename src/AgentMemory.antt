-- ===== src/AgentMemory.antt =====
-- The volatile memory of the agent (api/src/infrastructure/memory/InMemoryAgentMemory.ts).
-- Confidences are in hundredths, the scores of the themes in halves; of the metadata of a memory the
-- session is kept.
pub mod Recall
pub mod Scores
use dreamweaver.Prelude.{
  ℕ, ◌+◌, ◌-◌, String, Option, none, some, Bool, true, false, not, ◌&&◌, ◌||◌, List, [], ◌∷◌, ◌++◌,
  Dict, lookup, insert, take, ltb, ◌==◌, str_eq, includes, to_lower, truthy, if◌then◌else◌,
}
use dreamweaver.Conductor.Cues.{Sentiment, positive, negative}

pub data MemoryType : Type 0 where
  episodic semantic procedural preference : MemoryType

pub record MemoryRecord : Type 0 where
  pub id : String
  pub type : MemoryType
  pub content : String
  pub confidence : ℕ
  pub timestamp : ℕ
  -- `metadata?.['sessionId']`
  pub session : Option String

pub record AgentContext : Type 0 where
  pub user_id : Option String
  pub session_id : Option String

-- What the memory starts with.
unfoldable pub initial : ℕ → List MemoryRecord
initial now =
    record {
      id = "proc_1";
      type = procedural;
      content = "If time is past 8 PM, bias towards CALMING themes.";
      confidence = 90;
      timestamp = now;
      session = none;
    }
    ∷ record {
      id = "proc_2";
      type = procedural;
      content = "If child age < 5, limit story duration to SHORT.";
      confidence = 95;
      timestamp = now;
      session = none;
    }
    ∷ []

abbrev pub same_type : MemoryType → MemoryType → Bool
same_type episodic episodic = true
same_type semantic semantic = true
same_type procedural procedural = true
same_type preference preference = true
same_type _ _ = false

abbrev pub has_type : Option MemoryType → MemoryType → Bool
has_type none t = true
has_type (some wanted) t = same_type t wanted

abbrev same_session : Option String → String → Bool
same_session none s = false
same_session (some t) s = str_eq t s

abbrev pub is_of_session : Option MemoryType → Option String → Option String → Bool
is_of_session (some episodic) (some s) session = same_session session s
is_of_session _ _ session = true

-- The test of `retrieve`.
unfoldable pub matches : String → AgentContext → Option MemoryType → MemoryRecord → Bool
matches query context type m =
    has_type type m.type
    && (is_of_session type (truthy context.session_id) m.session
        && (str_eq query "*" || includes (to_lower m.content) (to_lower query)))

abbrev pub select : (MemoryRecord → Bool) → List MemoryRecord → List MemoryRecord
select p [] = []
select p (m ∷ ms) = let rest = select p ms in if p m then m ∷ rest else rest

unfoldable pub retrieve :
    String → AgentContext → Option MemoryType → (limit : ℕ) → List MemoryRecord → List MemoryRecord
unfolding matches
retrieve query context type limit memories =
    take limit (select (matches query context type) memories)

-- `session` is what `metadata` says of the session.
unfoldable pub store :
    (id : String)
    → (now : ℕ) → String
    → MemoryType
    → AgentContext
    → (session : Option String) → List MemoryRecord
    → List MemoryRecord
store id now content type context session memories =
    memories
    ++ record {
      id = id;
      type = type;
      content = content;
      confidence = 100;
      timestamp = now;
      session = session;
    }
      ∷ []

-- `themeScores.get(theme) || 1.0`: a score of 0 counts as none.
abbrev pub score_of : Option ℕ → ℕ
score_of none = 2
score_of (some score) = if score == 0 then 2 else score

abbrev pub shifted : Sentiment → ℕ → ℕ
shifted positive score = score + 2
shifted negative score = score - 1

unfoldable pub track_outcome : String → Sentiment → Dict ℕ → Dict ℕ
track_outcome theme outcome scores =
    insert theme (shifted outcome (score_of (lookup theme scores))) scores

-- A stable sort from the highest score to the lowest.
abbrev pub place : String × ℕ → List (String × ℕ) → List (String × ℕ)
place e [] = e ∷ []
place e (d ∷ ds) = let rest = place e ds in if ltb e.1 d.1 then d ∷ rest else e ∷ d ∷ ds

abbrev pub ranked : Dict ℕ → List (String × ℕ)
ranked [] = []
ranked (e ∷ es) = place e (ranked es)

unfoldable pub get_theme_stats : (limit : ℕ) → Dict ℕ → List (String × ℕ)
get_theme_stats limit scores = take limit (ranked scores)
