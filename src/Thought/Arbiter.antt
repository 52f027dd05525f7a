-- ===== src/Thought/Arbiter.antt =====
-- The arbitration between goals (`arbitrate` and `getStandardGoals` of
-- api/src/domain/services/AtomOfThoughtEngine.ts). Confidence is in hundredths; of the parameters
-- those with a text for a value are kept, since the rules read and write no other.
pub mod Laws
pub mod Late
use Prim.Native.String
use dreamweaver.Prelude.{
  ℕ, zero, suc, String, Option, none, some, Bool, true, false, ◌&&◌, ◌||◌, not, List, [], ◌∷◌, ◌++◌,
  map, Dict, lookup, insert, ltb, str_eq, includes, any, or_else, if◌then◌else◌,
}
use dreamweaver.Thought.{SessionPhase, storytelling, wind_down}

pub data GoalKind : Type 0 where
  relaxation bonding education safety : GoalKind

abbrev pub kind_text : GoalKind → String
kind_text relaxation = "RELAXATION"
kind_text bonding = "BONDING"
kind_text education = "EDUCATION"
kind_text safety = "SAFETY"

pub record StandingGoal : Type 0 where
  pub id : String
  pub type : GoalKind
  pub priority : ℕ
  pub description : String

pub record ArbitrationContext : Type 0 where
  pub time_of_day : String
  pub child_age : ℕ
  pub child_mood : String
  pub active_goals : List StandingGoal
  pub current_phase : SessionPhase

pub record ThoughtStep : Type 0 where
  pub goals_considered : List String
  pub conflicts_identified : Option String
  pub trade_off_made : Option String
  pub thought : String
  pub action : String
  pub confidence : ℕ
  pub parameters : Option (Dict String)

-- `list.includes(item)`
abbrev pub contains : List String → String → Bool
contains goals g = any (λ h. str_eq h g) goals

abbrev pub parameter : String → ThoughtStep → Option String
parameter key t = lookup key (or_else t.parameters [])

abbrev is_high : Option String → Bool
is_high none = false
is_high (some level) = str_eq level "high"

-- The test of rule 0.
unfoldable pub is_energetic : ThoughtStep → Bool
is_energetic t = includes t.action "ADVENTURE" || is_high (parameter "energyLevel" t)

abbrev pub soothe : ThoughtStep → ThoughtStep
soothe t = record t {
  conflicts_identified = some "High energy action conflicts with WIND_DOWN phase.";
  trade_off_made = some "Forced low-energy adaptation.";
  action = "SOOTHING_TALK";
  parameters = some (insert "energyLevel" "low" (or_else t.parameters []));
  thought = "Override: System in Wind Down. High energy actions blocked.";
}

unfoldable pub wind_down_rule : SessionPhase → ThoughtStep → ThoughtStep
wind_down_rule wind_down t = if is_energetic t then soothe t else t
wind_down_rule _ t = t

unfoldable pub storytelling_rule : SessionPhase → ThoughtStep → ThoughtStep
storytelling_rule storytelling t =
    if not (contains t.goals_considered "RELAXATION")
      && not (contains t.goals_considered "EDUCATION")
    then record t { goals_considered = t.goals_considered ++ "RELAXATION" ∷ [] }
    else t
storytelling_rule _ t = t

unfoldable pub safety_rule : ThoughtStep → ThoughtStep
safety_rule t =
    if contains t.goals_considered "SAFETY"
    then t
    else record t { goals_considered = "SAFETY" ∷ t.goals_considered }

unfoldable pub is_late : String → Bool
is_late time_of_day = includes time_of_day "Night" || includes time_of_day "Evening"

abbrev pub calm : String → ThoughtStep → ThoughtStep
calm time_of_day t = record t {
  conflicts_identified = some "Exciting adventure conflicts with bedtime relaxation needs.";
  trade_off_made =
      some "Downgraded excitement level to \"Calm Adventure\" to ensure sleep quality.";
  thought = String.◌++◌ "Detected late hour (" (
      String.◌++◌ time_of_day
        "). Overriding high-energy adventure with soothing relaxation beats.");
  parameters =
      some (insert "pacing" "soothing" (insert "energyLevel" "low" (or_else t.parameters [])));
}

unfoldable pub bedtime_rule : String → ThoughtStep → ThoughtStep
bedtime_rule time_of_day t =
    if is_late time_of_day && (str_eq t.action "ADVENTURE_STORY" && ltb 50 t.confidence)
    then calm time_of_day t
    else t

abbrev or_standing : List String → List StandingGoal → List String
or_standing [] goals = map (λ g. kind_text g.type) goals
or_standing (g ∷ gs) goals = g ∷ gs

unfoldable pub consistency_rule : List StandingGoal → ThoughtStep → ThoughtStep
consistency_rule goals t = record t { goals_considered = or_standing t.goals_considered goals }

unfoldable pub arbitrate : ThoughtStep → ArbitrationContext → ThoughtStep
arbitrate proposed context = consistency_rule context.active_goals (
    bedtime_rule context.time_of_day (
      safety_rule
        (storytelling_rule context.current_phase (wind_down_rule context.current_phase proposed))))

unfoldable pub standard_goals : List StandingGoal
standard_goals =
    record {
      id = "g1";
      type = relaxation;
      priority = 1;
      description = "Ensure the child is calm and ready for sleep.";
    }
    ∷ record {
      id = "g2";
      type = bonding;
      priority = 2;
      description = "Strengthen the parent-child connection through shared ritual.";
    }
    ∷ record {
      id = "g3";
      type = education;
      priority = 3;
      description = "Introduce gentle, age-appropriate learning moments.";
    }
    ∷ record {
      id = "g4";
      type = safety;
      priority = 0;
      description = "Protect the child from inappropriate content or overstimulation.";
    }
    ∷ []
