-- ===== src/Thought/Arbiter/Late.antt =====
-- The rule for late hours (rule 2 of `arbitrate`).
use dreamweaver.Prelude.{
  ◌<◌, String, some, true, ◌≡◌, ◌≢◌, ◌∙◌, arith, insert, lookup-insert_self, or_else, eq_iff, [],
  lt→ltb,
}
use dreamweaver.Thought.{SessionPhase, wind_down}
use dreamweaver.Thought.Arbiter.{
  ThoughtStep, ArbitrationContext, parameter, wind_down_rule, storytelling_rule, safety_rule,
  is_late, calm, bedtime_rule, arbitrate,
}
use dreamweaver.Thought.Arbiter.Laws.{before_consistency, arbitrate-before_consistency, calm-level}

wind_down_rule-other : (p : SessionPhase) (t : ThoughtStep) → p ≢ wind_down → wind_down_rule p t ≡ t
unfolding wind_down_rule
wind_down_rule-other p t h = ground arith

-- What the rules between keep.
inner : SessionPhase → ThoughtStep → ThoughtStep
inner p t = safety_rule (storytelling_rule p t)

inner_same :
    (p : SessionPhase) (t : ThoughtStep)
    → ((inner p t).action ≡ t.action) × ((inner p t).confidence ≡ t.confidence)
unfolding inner safety_rule storytelling_rule
inner_same p t = ground arith

bedtime_rule-calm :
    (d : String) (s : ThoughtStep)
    → is_late d ≡ true
    → s.action ≡ "ADVENTURE_STORY"
    → 50 < s.confidence
    → bedtime_rule d s ≡ calm d s
unfolding bedtime_rule
bedtime_rule-calm d s late a h =
    rw (late, (eq_iff s.action "ADVENTURE_STORY").1 a, lt→ltb 50 s.confidence h)

calm-pacing : (d : String) (t : ThoughtStep) → parameter "pacing" (calm d t) ≡ some "soothing"
calm-pacing d t =
    lookup-insert_self "pacing" "soothing" (insert "energyLevel" "low" (or_else t.parameters []))

arbitrate-calm :
    (t : ThoughtStep) (c : ArbitrationContext)
    → c.current_phase ≢ wind_down
    → is_late c.time_of_day ≡ true
    → t.action ≡ "ADVENTURE_STORY"
    → 50 < t.confidence
    → arbitrate t c ≡ calm c.time_of_day (inner c.current_phase t)
unfolding before_consistency inner
arbitrate-calm t c p late a h =
    arbitrate-before_consistency t c
    ∙ rw (wind_down_rule-other c.current_phase t p) (
        bedtime_rule-calm c.time_of_day (inner c.current_phase t) late
          ((inner_same c.current_phase t).0 ∙ a) (rw (inner_same c.current_phase t).1 h))

-- Late in the day and outside the wind-down phase, a proposed adventure story of more than even
-- confidence comes out as that story still, with low energy and soothing pacing.
pub arbitrate-late :
    (t : ThoughtStep) (c : ArbitrationContext)
    → c.current_phase ≢ wind_down
    → is_late c.time_of_day ≡ true
    → t.action ≡ "ADVENTURE_STORY"
    → 50 < t.confidence
    → ((arbitrate t c).action ≡ "ADVENTURE_STORY")
      × (parameter "energyLevel" (arbitrate t c) ≡ some "low")
      × (parameter "pacing" (arbitrate t c) ≡ some "soothing")
arbitrate-late t c p late a h = rw (arbitrate-calm t c p late a h) (
  (inner_same c.current_phase t).0 ∙ a,
  calm-level c.time_of_day (inner c.current_phase t),
  calm-pacing c.time_of_day (inner c.current_phase t),
)
