-- ===== src/Companions.antt =====
-- The companions that a child collects (api/src/domain/entities/DreamCompanion.ts and
-- api/src/application/use-cases/CheckUnlockUseCase.ts). The number of stories and the identifiers
-- that the moderators block are read from repositories and are arguments; the table of the unlocks
-- of one user is a dictionary from the identifier of the companion to the time.
pub mod Collected
use dreamweaver.Prelude.{
  ℕ, String, Option, none, some, Bool, true, false, List, [], ◌∷◌, ◌++◌, any, Dict, lookup, insert,
  ltb, leb, str_eq, is_some, if◌then◌else◌,
}

pub data CompanionSpecies : Type 0 where
  owl fox bear rabbit dragon cat : CompanionSpecies

pub record DreamCompanion : Type 0 where
  pub id : String
  pub name : String
  pub species : CompanionSpecies
  pub description : String
  pub unlock_threshold : ℕ
  pub is_unlocked : Bool
  pub unlocked_at : Option ℕ

abbrev pub unlock : ℕ → DreamCompanion → DreamCompanion
unlock now c = record c { is_unlocked = true; unlocked_at = some now }

-- The companion afterwards, and whether it was unlocked by the call.
unfoldable pub check_unlock : (now story_count : ℕ) → DreamCompanion → DreamCompanion × Bool
check_unlock now story_count c =
    if c.is_unlocked
    then (c, false)
    else if leb c.unlock_threshold story_count
    then (unlock now c, true)
    else (c, false)

abbrev locked : String → String → CompanionSpecies → String → ℕ → DreamCompanion
locked id name species description threshold = record {
  id = id;
  name = name;
  species = species;
  description = description;
  unlock_threshold = threshold;
  is_unlocked = false;
  unlocked_at = none;
}

abbrev pub available_companions : List DreamCompanion
available_companions =
    locked "c_luna" "Luna the Owl" owl "A wise owl who loves stories about the moon." 3
    ∷ locked "c_rusty" "Rusty the Fox" fox "A clever fox who enjoys adventures in the forest." 5
    ∷ locked "c_barnaby" "Barnaby the Bear" bear "A gentle giant who loves cozy bedtime tales." 10
    ∷ []

-- The table, the map `unlockedById`, and the identifiers in `newlyUnlocked`.
pub record Unlocking : Type 0 where
  pub saved : Dict ℕ
  pub unlocked_by_id : Dict ℕ
  pub newly_unlocked : List String

abbrev pub blocks : List String → DreamCompanion → Bool
blocks blocked c = any (str_eq c.id) blocked

abbrev pub start : Dict ℕ → Unlocking
start saved = record { saved = saved; unlocked_by_id = saved; newly_unlocked = [] }

-- One round of the first loop.
unfoldable pub unlock_one : (now count : ℕ) → List String → DreamCompanion → Unlocking → Unlocking
unlock_one now count blocked c st =
    if blocks blocked c
    then st
    else if ltb count c.unlock_threshold
    then st
    else if is_some (lookup c.id st.unlocked_by_id)
    then st
    else record {
      saved = insert c.id now st.saved;
      unlocked_by_id = insert c.id now st.unlocked_by_id;
      newly_unlocked = st.newly_unlocked ++ c.id ∷ [];
    }

unfoldable pub unlock_all :
    (now count : ℕ) → List String → List DreamCompanion → Unlocking → Unlocking
unfolding unlock_one
unlock_all now count blocked [] st = st
unlock_all now count blocked (c ∷ cs) st =
    unlock_all now count blocked cs (unlock_one now count blocked c st)

abbrev pub with_date : DreamCompanion → Option ℕ → List DreamCompanion → List DreamCompanion
with_date c none rest = rest
with_date c (some at) rest = unlock at c ∷ rest

-- The second loop.
unfoldable pub collect : List String → Dict ℕ → List DreamCompanion → List DreamCompanion
collect blocked unlocked [] = []
collect blocked unlocked (c ∷ cs) =
    let rest = collect blocked unlocked cs in
    if blocks blocked c then rest else with_date c (lookup c.id unlocked) rest

-- `execute`: the table afterwards, and the companions that are returned.
unfoldable pub check_unlocks : (now count : ℕ) → List String → Dict ℕ → Dict ℕ × List DreamCompanion
unfolding unlock_all collect
check_unlocks now count blocked saved =
    let st = unlock_all now count blocked available_companions (start saved) in
    (st.saved, collect blocked st.unlocked_by_id available_companions)
