-- ===== src/Conductor/Suggestions.antt =====
-- Suggestions from the themes that went well (`generateSuggestions` of BedtimeConductorAgent.ts). The
-- statistics come from the agent's memory, the scores as texts; confidence is in hundredths.
use Prim.Native.String.{◌++◌}
use dreamweaver.Prelude.{
  ℕ, String, Option, none, some, Bool, true, false, List, [], ◌∷◌, map, truthy,
}
use dreamweaver.Goal.{show}

pub record ThemeStat : Type 0 where
  pub theme : String
  pub score : String

pub record Suggestion : Type 0 where
  pub id : String
  pub title : String
  pub theme : String
  pub reasoning : String
  pub confidence : ℕ

abbrev from_stat : ℕ → String → ThemeStat → Suggestion
unfolding show
from_stat now user stat = record {
  id = "sugg_mem_" ++ (show now ++ ("_" ++ (user ++ ("_" ++ stat.theme))));
  title = "A story about " ++ stat.theme;
  theme = stat.theme;
  reasoning = "You loved this before! (Score: " ++ (stat.score ++ ")");
  confidence = 90;
}

abbrev default_suggestion : Suggestion
default_suggestion = record {
  id = "sugg_def_space";
  title = "Space Adventure";
  theme = "Space";
  reasoning = "A classic favorite.";
  confidence = 50;
}

abbrev or_suggest : List Suggestion → List Suggestion
or_suggest [] = default_suggestion ∷ []
or_suggest (s ∷ ss) = s ∷ ss

abbrev remembered : ℕ → Bool → Option String → List ThemeStat → List Suggestion
unfolding show
remembered now true (some user) stats = map (from_stat now user) stats
remembered now true none stats = []
remembered now false user stats = []

-- `memory` says whether the agent has one; `stats` is what it returns.
unfoldable pub generate_suggestions :
    ℕ → (memory : Bool) → Option String → List ThemeStat → List Suggestion
unfolding show
generate_suggestions now memory user stats = or_suggest (remembered now memory (truthy user) stats)
