-- ===== src/Conductor/Attempts/Answers.antt =====
-- Which answer `conductStorySession` ends with, by what the calls of the model do.
use dreamweaver.Prelude.{
  ℕ, zero, suc, ◌+◌, ◌-◌, ◌*◌, ◌≤◌, ◌<◌, String, Option, none, some, true, List, [], ◌∷◌, ◌≡◌, refl,
  ap, ◌∙◌, arith,
}
use dreamweaver.Thought.Arbiter.{ThoughtStep}
use dreamweaver.Resilience.{
  FailureType, Action, retry, self_correct, fallback, abort, degrade_service, assess_failure,
  refined_type, strategy,
}
use dreamweaver.Resilience.Policy.{calls_again, assess_failure_bounds}
use dreamweaver.Conductor.Attempts.{
  Failure, Reply, thought, failed, Ending, answered, safe_mode, fallen_back, Conducted,
  failure_type, event_of, plan_waits, with_wait, stop, after_failure, attempt_from, attempt_all,
}

-- What a failure calls for while attempts and budget last.
unfoldable pub remedy : Failure → Action
remedy f = (strategy (refined_type (failure_type f) (some f.message)) (some f.message) 0).action

strategy-action :
    (type : FailureType) (error : Option String) (n : ℕ)
    → (strategy type error n).action ≡ (strategy type error 0).action
unfolding strategy
strategy-action type error n = ground arith

assess-remedy :
    (f : Failure) (n c : ℕ) → n < 3 → c ≤ 5000 → (assess_failure (event_of f n c)).action ≡ remedy f
unfolding assess_failure event_of remedy
assess-remedy f n c h k =
    ground
      (arith, strategy-action (refined_type (failure_type f) (some f.message)) (some f.message) n)

-- The third failure ends the attempts, whatever it is.
assess-third :
    (f : Failure) (c : ℕ) → c ≤ 5000 → (assess_failure (event_of f 3 c)).action ≡ fallback
unfolding assess_failure event_of
assess-third f c h = ground arith

-- The ending and the number of attempts.
abbrev SameEnd : Conducted → Conducted → Type 0
SameEnd r s = (r.ending ≡ s.ending) × (r.attempts ≡ s.attempts)

abbrev ending : Conducted → Ending
ending r = r.ending

abbrev attempts : Conducted → ℕ
attempts r = r.attempts

with_wait-SameEnd : (ws : List ℕ) (r : Conducted) → SameEnd (with_wait ws r) r
with_wait-SameEnd [] r = (refl, refl)
with_wait-SameEnd (w ∷ ws) r = (refl, refl)

after_failure-again :
    (f : Failure) (a c : ℕ) (ws : List ℕ) (again : Conducted) (action : Action)
    → calls_again action ≡ true
    → SameEnd (after_failure f a c ws again action) again
unfolding after_failure
after_failure-again f a c ws again retry h = with_wait-SameEnd ws again
after_failure-again f a c ws again self_correct h = with_wait-SameEnd ws again
after_failure-again f a c ws again fallback h = absurd (cc)
after_failure-again f a c ws again abort h = absurd (cc)
after_failure-again f a c ws again degrade_service h = absurd (cc)

after_failure-safe :
    (f : Failure) (a c : ℕ) (ws : List ℕ) (again : Conducted) (action : Action)
    → action ≡ degrade_service
    → after_failure f a c ws again action ≡ stop safe_mode a c
unfolding after_failure
after_failure-safe f a c ws again action e = rw e refl

after_failure-default :
    (f : Failure) (a c : ℕ) (ws : List ℕ) (again : Conducted) (action : Action)
    → action ≡ fallback
    → after_failure f a c ws again action ≡ stop (fallen_back (some f)) a c
unfolding after_failure
after_failure-default f a c ws again action e = rw e refl

remedy-breach : (f : Failure) → f.name ≡ "QualityGateError" → remedy f ≡ degrade_service
unfolding remedy failure_type strategy refined_type
remedy-breach f e = rw e refl

module _ (reply : ℕ → Reply) where
  -- The `n` rounds after round `a` fail, each with a failure that calls for another attempt.
  abbrev pub Transient : (n a : ℕ) → Type 0
  Transient zero a = Unit
  Transient (suc n) a =
      ((f : Failure) × (reply (a + 1) ≡ failed f) × (calls_again (remedy f) ≡ true))
      × Transient n (a + 1)

  -- The cost and the failure with which the next round begins.
  attempt_from-failed :
      (left a c : ℕ) (last : Option Failure) (f : Failure)
      → reply (a + 1) ≡ failed f
      → attempt_from reply (suc left) a c last ≡ (
          let plan = assess_failure (event_of f (a + 1) c) in
          after_failure f
            (a + 1)
            (c + plan.estimated_cost)
            (plan_waits plan.parameters)
            (attempt_from reply left (a + 1) (c + plan.estimated_cost) (some f))
            plan.action)
  unfolding attempt_from
  attempt_from-failed left a c last f e = rw (e, attempt_from)

  attempt_from-thought :
      (left a c : ℕ) (last : Option Failure) (t : ThoughtStep)
      → reply (a + 1) ≡ thought t
      → attempt_from reply (suc left) a c last ≡ stop (answered t last) (a + 1) c
  unfolding attempt_from
  attempt_from-thought left a c last t e = rw (e, attempt_from)

  abbrev extra : Failure → ℕ → ℕ → ℕ
  extra f n c = (assess_failure (event_of f n c)).estimated_cost

  round_is_safe :
      (left a c : ℕ) (last : Option Failure) (f : Failure)
      → a < 2
      → c ≤ 5000
      → reply (a + 1) ≡ failed f
      → f.name ≡ "QualityGateError"
      → attempt_from reply (suc left) a c last ≡ stop safe_mode (a + 1) (c + extra f (a + 1) c)
  round_is_safe left a c last f h k e name =
      let plan = assess_failure (event_of f (a + 1) c) in
      let c' = c + plan.estimated_cost in
      let acts = assess-remedy f (a + 1) c (omega arith) k ∙ remedy-breach f name in
      attempt_from-failed left a c last f e
      ∙ after_failure-safe f (a + 1) c' (plan_waits plan.parameters)
          (attempt_from reply left (a + 1) c' (some f)) plan.action acts

  third_round :
      (left c : ℕ) (last : Option Failure) (f : Failure)
      → c ≤ 5000
      → reply 3 ≡ failed f
      → attempt_from reply (suc left) 2 c last ≡ stop (fallen_back (some f)) 3 (c + extra f 3 c)
  third_round left c last f k e =
      let plan = assess_failure (event_of f 3 c) in
      let c' = c + plan.estimated_cost in
      attempt_from-failed left 2 c last f e
      ∙ after_failure-default f 3 c' (plan_waits plan.parameters)
          (attempt_from reply left 3 c' (some f)) plan.action (assess-third f c k)

  -- Where a run from round `b` on stands after `n` transient failures.
  record Resumed (left b : ℕ) (r : Conducted) : Type 0 where
    cost : ℕ
    last : Option Failure
    cheap : cost ≤ 5 * b
    same : SameEnd r (attempt_from reply left b cost last)

  Resumed-at :
      (left a b c : ℕ) (last : Option Failure)
      → a ≡ b
      → c ≤ 5 * a
      → Resumed left b (attempt_from reply left a c last)
  Resumed-at left a b c last e k =
      rw (← e) (record { cost = c; last = last; cheap = k; same = (refl, refl) })

  skip :
      (n left rounds a b c : ℕ) (last : Option Failure)
      → n + left ≡ rounds
      → a + n ≡ b
      → b < 3
      → c ≤ 5 * a
      → Transient n a
      → Resumed left b (attempt_from reply rounds a c last)
  skip zero left rounds a b c last total e h k t =
      let all : rounds ≡ left = omega arith in rw all (Resumed-at left a b c last (omega arith) k)
  skip (suc n) left zero a b c last total e h k t = absurd (omega arith)
  skip (suc n) left (suc rounds) a b c last total e h k ((f, fails, again), t) =
      let plan = assess_failure (event_of f (a + 1) c) in
      let c' = c + plan.estimated_cost in
      let cheap = assess_failure_bounds (event_of f (a + 1) c) in
      let next =
        skip n left rounds (a + 1) b c' (some f) (omega arith) (omega arith) h
          (omega (arith, cheap.1)) t in
      let plan_again : calls_again plan.action ≡ true =
        ap calls_again (assess-remedy f (a + 1) c (omega arith) (omega arith)) ∙ again in
      let on =
        after_failure-again f (a + 1) c' (plan_waits plan.parameters)
          (attempt_from reply rounds (a + 1) c' (some f)) plan.action plan_again in
      let step = attempt_from-failed rounds a c last f fails in
      record {
        cost = next.cost;
        last = next.last;
        cheap = next.cheap;
        same = (ap ending step ∙ on.0 ∙ next.same.0, ap attempts step ∙ on.1 ∙ next.same.1);
      }

  -- If the first one or two calls of the model, or none, fail with failures that call for
  -- another attempt, and the next one returns a thought, then that thought is the answer, with
  -- that attempt.
  pub thought_is_answered :
      (n : ℕ) (t : ThoughtStep)
      → n < 3
      → Transient n 0
      → reply (n + 1) ≡ thought t
      → (last : Option Failure) × ((attempt_all reply).ending ≡ answered t last)
        × ((attempt_all reply).attempts ≡ n + 1)
  unfolding attempt_all
  thought_is_answered n t h fails ok =
      let r = skip n (suc (2 - n)) 3 0 n 0 none (omega arith) (omega arith) h (omega arith) fails in
      let done = attempt_from-thought (2 - n) n r.cost r.last t ok in
      (r.last, r.same.0 ∙ ap ending done, r.same.1 ∙ ap attempts done)

  -- If no call of the model or the first one fails with a failure that calls for another
  -- attempt, and the next one throws the error of the quality gate, the session goes into safe
  -- mode with that attempt.
  pub breach_is_safe :
      (n : ℕ) (f : Failure)
      → n < 2
      → Transient n 0
      → reply (n + 1) ≡ failed f
      → f.name ≡ "QualityGateError"
      → ((attempt_all reply).ending ≡ safe_mode) × ((attempt_all reply).attempts ≡ n + 1)
  unfolding attempt_all
  breach_is_safe n f h fails bad name =
      let r =
        skip n (suc (2 - n)) 3 0 n 0 none (omega arith) (omega arith) (omega arith) (omega arith)
          fails in
      let ends =
        round_is_safe (2 - n) n r.cost r.last f (omega arith) (omega (arith, r.cheap)) bad name in
      (r.same.0 ∙ ap ending ends, r.same.1 ∙ ap attempts ends)

  -- If all three calls of the model fail, the first two with failures that call for another
  -- attempt, the answer is the default one, with the third failure.
  pub third_falls_back :
      (f : Failure)
      → Transient 2 0
      → reply 3 ≡ failed f
      → ((attempt_all reply).ending ≡ fallen_back (some f)) × ((attempt_all reply).attempts ≡ 3)
  unfolding attempt_all
  third_falls_back f fails bad =
      let r = skip 2 1 3 0 2 0 none refl refl (omega arith) (omega arith) fails in
      let ends = third_round 0 r.cost r.last f (omega (arith, r.cheap)) bad in
      (r.same.0 ∙ ap ending ends, r.same.1 ∙ ap attempts ends)
