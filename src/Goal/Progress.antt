-- ===== src/Goal/Progress.antt =====
-- What the operations keep of a goal (api/src/domain/entities/ActiveGoal.ts).
use dreamweaver.Prelude.{ℕ, ◌≤◌, String, Option, ◌≡◌, ◌≢◌, none, arith}
use dreamweaver.Goal.{
  Goal, GoalType, achieved, Rounded, pos, negsuc, infinite, create_new, update_progress, clamp,
  mark_achieved,
}

-- The progress is a percentage, and a goal that counts as achieved is complete and dated.
pub record IsSound (g : Goal) : Type 0 where
  pub percent : g.progress ≤ 100
  pub complete : g.status ≡ achieved → g.progress ≡ 100
  pub dated : g.status ≡ achieved → g.achieved_at ≢ none

clamp_le : (p : Rounded) → clamp p ≤ 100
unfolding clamp
clamp_le (pos n) = omega arith
clamp_le (negsuc n) = omega arith
clamp_le infinite = omega arith

pub create_new-IsSound :
    (id : String) (now : ℕ) (type : GoalType) (minutes : ℕ) (d : Option String)
    → IsSound (create_new id now type minutes d)
unfolding create_new
create_new-IsSound id now type minutes d = ground arith

pub mark_achieved-IsSound : (now : ℕ) (g : Goal) → IsSound (mark_achieved now g)
unfolding mark_achieved
mark_achieved-IsSound now g = ground arith

-- Of a goal that is not achieved yet; the code updates no other.
pub update_progress-IsSound :
    (p : Rounded) (g : Goal) → g.status ≢ achieved → IsSound (update_progress p g)
unfolding update_progress
update_progress-IsSound p g h = record {
  percent = clamp_le p;
  complete = λ e. absurd (h e);
  dated = λ e. absurd (h e);
}
