-- ===== src/Thought/Arbiter/Laws.antt =====
-- What the arbitration guarantees.
use mathlib.Core.Path.{subst}
use mathlib.Core.List.{◌++◌}
use dreamweaver.Prelude.{
  String, some, true, false, List, [], ◌∷◌, ◌≡◌, ◌≢◌, refl, ap, ◌∙◌, inl, inr, Bool-cases, arith,
  insert, lookup-insert, lookup-insert_self, includes, str_eq, or_else, eq_refl, eq_iff,
}
use dreamweaver.Thought.{SessionPhase, wind_down, storytelling}
use dreamweaver.Thought.Arbiter.{
  ThoughtStep, ArbitrationContext, StandingGoal, contains, parameter, is_energetic, soothe,
  wind_down_rule, storytelling_rule, safety_rule, calm, bedtime_rule, or_standing, consistency_rule,
  arbitrate,
}

or_standing-keeps :
    (gs : List String) (goals : List StandingGoal)
    → contains gs "SAFETY" ≡ true
    → or_standing gs goals ≡ gs
or_standing-keeps [] goals h = cc
or_standing-keeps (g ∷ gs) goals h = refl

consistency-keeps :
    (goals : List StandingGoal) (t : ThoughtStep)
    → contains t.goals_considered "SAFETY" ≡ true
    → consistency_rule goals t ≡ t
unfolding consistency_rule
consistency-keeps goals t h =
    ap (λ gs. record t { goals_considered = gs }) (or_standing-keeps t.goals_considered goals h)

safety_rule-safety : (t : ThoughtStep) → contains (safety_rule t).goals_considered "SAFETY" ≡ true
unfolding safety_rule
safety_rule-safety t = elim (Bool-cases (contains t.goals_considered "SAFETY")) [
  | inl e ↦ rw e e
  | inr e ↦ rw e
]

bedtime_rule-goals :
    (d : String) (t : ThoughtStep) → (bedtime_rule d t).goals_considered ≡ t.goals_considered
unfolding bedtime_rule
bedtime_rule-goals d t = ground arith

unfoldable pub before_consistency : ThoughtStep → ArbitrationContext → ThoughtStep
before_consistency t c =
    bedtime_rule c.time_of_day
      (safety_rule (storytelling_rule c.current_phase (wind_down_rule c.current_phase t)))

before_consistency-safety :
    (t : ThoughtStep) (c : ArbitrationContext)
    → contains (before_consistency t c).goals_considered "SAFETY" ≡ true
unfolding before_consistency
before_consistency-safety t c = rw (bedtime_rule-goals c.time_of_day _) (safety_rule-safety _)

-- The last rule, which puts the standing goals in the place of an empty list, never applies.
pub arbitrate-before_consistency :
    (t : ThoughtStep) (c : ArbitrationContext) → arbitrate t c ≡ before_consistency t c
unfolding arbitrate before_consistency
arbitrate-before_consistency t c =
    consistency-keeps c.active_goals _ (unfold before_consistency in before_consistency-safety t c)

contains-append :
    (gs hs : List String) (g : String) → contains gs g ≡ true → contains (gs ++ hs) g ≡ true
contains-append [] hs g h = cc
contains-append (k ∷ gs) hs g h = ground (arith, contains-append gs hs g)

storytelling_rule-keeps :
    (p : SessionPhase) (t : ThoughtStep) (g : String)
    → contains t.goals_considered g ≡ true
    → contains (storytelling_rule p t).goals_considered g ≡ true
unfolding storytelling_rule
storytelling_rule-keeps storytelling t g h =
    ground (arith, contains-append t.goals_considered ("RELAXATION" ∷ []) g h)
storytelling_rule-keeps _ t g h = h

safety_rule-keeps :
    (t : ThoughtStep) (g : String)
    → contains t.goals_considered g ≡ true
    → contains (safety_rule t).goals_considered g ≡ true
unfolding safety_rule
safety_rule-keeps t g h = ground arith

wind_down_rule-goals :
    (p : SessionPhase) (t : ThoughtStep)
    → (wind_down_rule p t).goals_considered ≡ t.goals_considered
unfolding wind_down_rule
wind_down_rule-goals p t = ground arith

-- Whatever the model proposes, safety is among the goals of the result, and no proposed goal is
-- lost.
pub arbitrate-goals :
    (t : ThoughtStep) (c : ArbitrationContext) (g : String)
    → contains ("SAFETY" ∷ t.goals_considered) g ≡ true
    → contains (arbitrate t c).goals_considered g ≡ true
unfolding before_consistency
arbitrate-goals t c g h =
    rw (arbitrate-before_consistency t c) (elim (Bool-cases (str_eq "SAFETY" g)) [
      | inl e ↦
          subst (λ k. contains (before_consistency t c).goals_considered k ≡ true)
            ((eq_iff "SAFETY" g).0 e) (before_consistency-safety t c)
      | inr e ↦ rw (bedtime_rule-goals c.time_of_day _) (
          safety_rule-keeps _ g (
            storytelling_rule-keeps c.current_phase _ g
              (rw (wind_down_rule-goals c.current_phase t) (ground arith))))
    ])

bedtime_rule-action : (d : String) (t : ThoughtStep) → (bedtime_rule d t).action ≡ t.action
unfolding bedtime_rule
bedtime_rule-action d t = ground arith

safety_rule-energy : (t : ThoughtStep) → is_energetic (safety_rule t) ≡ is_energetic t
unfolding safety_rule is_energetic
safety_rule-energy t = ground arith

soothe-energy : (t : ThoughtStep) → is_energetic (soothe t) ≡ false
unfolding is_energetic includes
soothe-energy t = rw (lookup-insert_self "energyLevel" "low" (or_else t.parameters []))

wind_down_rule-energy : (t : ThoughtStep) → is_energetic (wind_down_rule wind_down t) ≡ false
unfolding wind_down_rule
wind_down_rule-energy t = elim (Bool-cases (is_energetic t)) [
  | inl e ↦ rw e (soothe-energy t)
  | inr e ↦ rw e e
]

pub calm-level : (d : String) (t : ThoughtStep) → parameter "energyLevel" (calm d t) ≡ some "low"
calm-level d t =
    lookup-insert "pacing" "energyLevel" "soothing"
      (insert "energyLevel" "low" (or_else t.parameters []))
    ∙ lookup-insert_self "energyLevel" "low" (or_else t.parameters [])

calm-energy :
    (d : String) (t : ThoughtStep) → is_energetic t ≡ false → is_energetic (calm d t) ≡ false
unfolding is_energetic
calm-energy d t h = rw (calm-level d t) (ground arith)

bedtime_rule-energy :
    (d : String) (t : ThoughtStep)
    → is_energetic t ≡ false
    → is_energetic (bedtime_rule d t) ≡ false
unfolding bedtime_rule
bedtime_rule-energy d t h = ground (arith, calm-energy d t h)

not_energetic :
    (s : ThoughtStep)
    → is_energetic s ≡ false
    → (includes s.action "ADVENTURE" ≡ false) × (parameter "energyLevel" s ≢ some "high")
unfolding is_energetic
not_energetic s e = (ground arith, λ high. absurd (ground (arith, high, eq_refl "high")))

storytelling_rule-wind_down : (t : ThoughtStep) → storytelling_rule wind_down t ≡ t
unfolding storytelling_rule
storytelling_rule-wind_down t = refl

arbitrate-energy :
    (t : ThoughtStep) (c : ArbitrationContext)
    → c.current_phase ≡ wind_down
    → is_energetic (arbitrate t c) ≡ false
unfolding before_consistency
arbitrate-energy t c h = rw (arbitrate-before_consistency t c) (
    bedtime_rule-energy c.time_of_day _ (
      safety_rule-energy _
      ∙ rw h (
          rw (storytelling_rule-wind_down (wind_down_rule wind_down t)) (wind_down_rule-energy t))))

-- In the wind-down phase the result is never energetic: its action does not mention an adventure,
-- and its energy level is not high.
pub arbitrate-wind_down :
    (t : ThoughtStep) (c : ArbitrationContext)
    → c.current_phase ≡ wind_down
    → (includes (arbitrate t c).action "ADVENTURE" ≡ false)
      × (parameter "energyLevel" (arbitrate t c) ≢ some "high")
arbitrate-wind_down t c h = not_energetic (arbitrate t c) (arbitrate-energy t c h)
