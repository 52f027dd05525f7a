-- ===== src/PersistedMemory.antt =====
-- The memory of the agent in a file (api/src/infrastructure/memory/PersistedAgentMemory.ts). A file
-- holds a database; whether it can be read, and how far a write gets, are parameters. Scores are in
-- halves, as what was gained and what was lost; no theme is a numeral.
pub mod Durable
pub mod Newest
use dreamweaver.Prelude.{
  ℕ, ◌+◌, String, Option, none, some, Bool, true, false, List, [], ◌∷◌, ◌++◌, Dict, lookup, insert,
  take, leb, or_else, if◌then◌else◌,
}
use dreamweaver.Conductor.Cues.{Sentiment, positive, negative}
use dreamweaver.AgentMemory.{MemoryRecord, MemoryType, AgentContext, initial, matches, select}

pub record Score : Type 0 where
  pub gained : ℕ
  pub lost : ℕ

pub record PreferencePair : Type 0 where
  pub win : String
  pub lose : String
  pub timestamp : ℕ

-- `MemoryDatabase`, and the fields of the class that it is written from.
pub record Database : Type 0 where
  pub memories : List MemoryRecord
  pub theme_scores : Dict Score
  pub preference_pairs : List PreferencePair

-- The two files. A file that was not written to its end is `none`.
pub record Disk : Type 0 where
  pub db : Option Database
  pub temp : Option Database

-- How far `persist` gets: it is done; the write or the renaming fails, and the other file is removed;
-- or the process ends in the middle of the write or before the renaming.
pub data Writing : Type 0 where
  done write_failed rename_failed ends_in_write ends_before_rename : Writing

-- The files afterwards, and whether the call returns.
unfoldable pub persist : Writing → Database → Disk → Disk × Bool
persist done d disk = (record { db = some d; temp = none }, true)
persist write_failed d disk = (record disk { temp = none }, false)
persist rename_failed d disk = (record disk { temp = none }, false)
persist ends_in_write d disk = (record disk { temp = none }, false)
persist ends_before_rename d disk = (record disk { temp = some d }, false)

-- A process with its files; `data` is there once it has been initialised.
pub record Memory : Type 0 where
  pub content : Option Database
  pub disk : Disk

abbrev pub defaults : ℕ → Database
defaults now = record { memories = initial now; theme_scores = []; preference_pairs = [] }

-- What `readFile` and `JSON.parse` give; `readable` is whether they work if the file is there.
abbrev pub read : (readable : Bool) → Disk → Option Database
read true disk = disk.db
read false disk = none

abbrev pub begin_fresh : Writing → Database → Disk → Memory × Bool
begin_fresh w d disk =
    let (disk', returns) = persist w d disk in
    if returns
    then (record { content = some d; disk = disk' }, true)
    else (record { content = none; disk = disk' }, false)

abbrev pub load : ℕ → Writing → Option Database → Disk → Memory × Bool
load now w none disk = begin_fresh w (defaults now) disk
load now w (some d) disk = (record { content = some d; disk = disk }, true)

-- `init`, and whether it returns.
unfoldable pub init : ℕ → (readable : Bool) → Writing → Memory → Memory × Bool
unfolding persist
init now readable w m = elim m.content [
  | none ↦ load now w (read readable m.disk) m.disk
  | some d ↦ (m, true)
]

-- The calls that change the memory.
pub data Change : Type 0 where
  store_call : (id content : String) → MemoryType → (session : Option String) → Change
  outcome_call : (theme : String) → Sentiment → Change
  pair_call : (win lose : String) → Change

abbrev pub scored : Sentiment → Score → Score
scored positive s = record s { gained = s.gained + 2 }
scored negative s = record s { lost = s.lost + 1 }

-- What `store`, `trackOutcome` and `trackPreferencePair` do to the fields.
unfoldable pub changed : ℕ → Change → Database → Database
changed now (store_call id content type session) d = record d {
  memories =
      d.memories
      ++ record {
        id = id;
        type = type;
        content = content;
        confidence = 100;
        timestamp = now;
        session = session;
      }
        ∷ [];
}
changed now (outcome_call theme sentiment) d = record d {
  theme_scores =
      insert theme
        (scored sentiment (or_else (lookup theme d.theme_scores) (record { gained = 0; lost = 0 })))
        d.theme_scores;
}
changed now (pair_call win lose) d = record d {
  preference_pairs = d.preference_pairs ++ record { win = win; lose = lose; timestamp = now } ∷ [];
}

-- The fields are changed before they are written, and stay so if the write fails.
abbrev pub change_ready : ℕ → Writing → Change → Option Database → Memory → Memory × Bool
change_ready now w k none m = (m, false)
change_ready now w k (some d) m =
    let (disk, returns) = persist w (changed now k d) m.disk in
    (record { content = some (changed now k d); disk = disk }, returns)

unfoldable pub change : ℕ → Writing → Change → Memory → Memory × Bool
unfolding persist changed
change now w k m = change_ready now w k m.content m

-- A process that ends and starts again.
abbrev pub restart : Memory → Memory
restart m = record m { content = none }

abbrev pub place : MemoryRecord → List MemoryRecord → List MemoryRecord
place m [] = m ∷ []
place m (n ∷ ns) =
    let rest = place m ns in if leb n.timestamp m.timestamp then m ∷ n ∷ ns else n ∷ rest

-- `sort((a, b) => b.timestamp - a.timestamp)`, which keeps the order of equal ones.
unfoldable pub newest_first : List MemoryRecord → List MemoryRecord
newest_first [] = []
newest_first (m ∷ ms) = place m (newest_first ms)

-- `retrieve`, after `init`.
unfoldable pub retrieve :
    String → AgentContext → Option MemoryType → (limit : ℕ) → Database → List MemoryRecord
unfolding newest_first
retrieve query context type limit d =
    take limit (newest_first (select (matches query context type) d.memories))

-- The score of `a` is above that of `b`.
abbrev is_at_least : Score → Score → Bool
is_at_least a b = leb (b.gained + a.lost) (a.gained + b.lost)

abbrev place_score : String × Score → List (String × Score) → List (String × Score)
place_score (t, s) [] = (t, s) ∷ []
place_score (t, s) ((u, r) ∷ rs) =
    let rest = place_score (t, s) rs in
    if is_at_least s r then (t, s) ∷ (u, r) ∷ rs else (u, r) ∷ rest

abbrev ranked : List (String × Score) → List (String × Score)
ranked [] = []
ranked ((t, s) ∷ rs) = place_score (t, s) (ranked rs)

unfoldable pub get_theme_stats : (limit : ℕ) → Database → List (String × Score)
get_theme_stats limit d = take limit (ranked d.theme_scores)
