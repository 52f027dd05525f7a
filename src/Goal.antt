-- ===== src/Goal.antt =====
-- Bedtime goals (api/src/domain/entities/ActiveGoal.ts). The class and its `Props` have the same
-- fields, so one record stands for both: `create` and `toJSON` copy it. A `Date` is its number of
-- milliseconds; the identifier, made of the clock and random digits, is given by the caller.
pub mod Progress
use Prim.Native.String
use dreamweaver.Prelude.{
  ℕ, zero, suc, ◌+◌, ◌*◌, ◌/◌, ◌%◌, String, Option, none, some, min, max, ltb, if◌then◌else◌,
  or_else,
}

pub data GoalType : Type 0 where
  child_asleep story_completed relaxation_achieved : GoalType

pub data GoalStatus : Type 0 where
  active achieved abandoned : GoalStatus

pub record Goal : Type 0 where
  pub id : String
  pub type : GoalType
  pub target_time : ℕ
  pub description : String
  pub status : GoalStatus
  pub progress : ℕ
  pub created_at : ℕ
  pub achieved_at : Option ℕ

-- A whole number, as `Math.round` returns it, or the infinity of a division by zero.
pub data Rounded : Type 0 where
  pos : ℕ → Rounded
  negsuc : ℕ → Rounded
  infinite : Rounded

-- Decimal digits, as a template string prints a number; a number has fewer digits than its value
-- plus one, so the fuel given by `show` is enough.
digit : ℕ → String
digit zero = "0"
digit (suc zero) = "1"
digit (suc (suc zero)) = "2"
digit (suc (suc (suc zero))) = "3"
digit (suc (suc (suc (suc zero)))) = "4"
digit (suc (suc (suc (suc (suc zero))))) = "5"
digit (suc (suc (suc (suc (suc (suc zero)))))) = "6"
digit (suc (suc (suc (suc (suc (suc (suc zero))))))) = "7"
digit (suc (suc (suc (suc (suc (suc (suc (suc zero)))))))) = "8"
digit (suc (suc (suc (suc (suc (suc (suc (suc (suc n))))))))) = "9"

show_from : ℕ → ℕ → String
unfolding digit
show_from zero n = ""
show_from (suc f) n =
    let more = String.◌++◌ (show_from f (n / 10)) (digit (n % 10)) in
    if ltb n 10 then digit n else more

unfoldable pub show : ℕ → String
unfolding show_from
show n = show_from (n + 1) n

-- `getDefaultDescription`
default_description : GoalType → ℕ → String
unfolding show
default_description child_asleep minutes =
    String.◌++◌ "Child asleep in " (String.◌++◌ (show minutes) " minutes")
default_description story_completed minutes =
    String.◌++◌ "Complete story within " (String.◌++◌ (show minutes) " minutes")
default_description relaxation_achieved minutes =
    String.◌++◌ "Achieve relaxation in " (String.◌++◌ (show minutes) " minutes")

unfoldable pub create_new : (id : String) (now : ℕ) → GoalType → ℕ → Option String → Goal
unfolding default_description
create_new id now type target_minutes description = record {
  id = id;
  type = type;
  target_time = now + target_minutes * 60 * 1000;
  description = or_else description (default_description type target_minutes);
  status = active;
  progress = 0;
  created_at = now;
  achieved_at = none;
}

-- `Math.min(100, Math.max(0, progress))`
clamp : Rounded → ℕ
clamp (pos n) = min 100 (max 0 n)
clamp (negsuc n) = 0
clamp infinite = 100

unfoldable pub update_progress : Rounded → Goal → Goal
unfolding clamp
update_progress progress g = record g { progress = clamp progress }

unfoldable pub mark_achieved : ℕ → Goal → Goal
mark_achieved now g = record g { status = achieved; progress = 100; achieved_at = some now }
