-- ===== src/Conductor/Attempts/Bounds.antt =====
-- The limits of the attempts, and which of them is answered.
use dreamweaver.Prelude.{
  ℕ, zero, suc, ◌+◌, ◌*◌, ◌≤◌, ◌<◌, true, false, Option, none, some, List, [], ◌∷◌, ◌≡◌, refl, ap,
  ◌⊎◌, inl, inr, arith, length,
}
use dreamweaver.Thought.Arbiter.{ThoughtStep}
use dreamweaver.Resilience.{
  Action, retry, self_correct, fallback, abort, degrade_service, CorrectionPlan, assess_failure,
}
use dreamweaver.Resilience.Policy.{
  wait_of, calls_again, assess_failure_bounds, assess_failure_wait, calls_again_within,
}
use dreamweaver.Conductor.Attempts.{
  Failure, Reply, thought, failed, Ending, answered, safe_mode, fallen_back, Conducted, event_of,
  plan_waits, with_wait, stop, after_failure, attempt_from, attempt_all,
}

-- The sum of the waits.
pub total : List ℕ → ℕ
total [] = 0
total (w ∷ ws) = w + total ws

-- The longest waits after the first `n` attempts: ten seconds, fifteen, and so on.
pub spent : ℕ → ℕ
spent zero = 0
spent (suc n) = spent n + 5000 * (n + 2)

-- What a run that starts with `attempts` rounds done, at the cost `cost`, uses up.
pub record IsWithin (attempts cost : ℕ) (r : Conducted) : Type 0 where
  pub rounds : r.attempts ≤ 3
  pub price : r.cost + 5 * attempts ≤ cost + 10
  pub waits : length r.waits + attempts ≤ 2
  pub time : total r.waits + spent attempts ≤ 25000

spent_le : (n : ℕ) → n < 3 → spent n ≤ 25000
unfolding spent
spent_le zero h = omega arith
spent_le (suc zero) h = omega arith
spent_le (suc (suc zero)) h = omega arith
spent_le (suc (suc (suc n))) h = absurd (omega (arith, h))

plus_zero : (n : ℕ) → n + 0 ≡ n
plus_zero n = omega arith

succ : (n : ℕ) → n + 1 ≡ suc n
succ n = omega arith

spent_next : (n : ℕ) → spent (n + 1) ≡ spent n + 5000 * (n + 2)
unfolding spent
spent_next n = rw (succ n) refl

-- At most one wait, of at most `most` milliseconds.
abbrev IsShort : ℕ → List ℕ → Type 0
IsShort most ws = (length ws ≤ 1) × (total ws ≤ most)

plan_waits-IsShort :
    (plan : CorrectionPlan) (most : ℕ)
    → wait_of plan ≤ most
    → 50 ≤ most
    → IsShort most (plan_waits plan.parameters)
unfolding plan_waits total
plan_waits-IsShort plan most h least = ground arith

with_wait-IsWithin :
    (attempts cost extra : ℕ) (ws : List ℕ) (r : Conducted)
    → extra ≤ 5
    → IsShort (5000 * (attempts + 2)) ws
    → IsWithin (attempts + 1) (cost + extra) r
    → IsWithin attempts cost (with_wait ws r)
unfolding total
with_wait-IsWithin attempts cost extra [] r h k w = record {
  rounds = w.rounds;
  price = omega (arith, w.price);
  waits = omega (arith, w.waits);
  time = omega (arith, w.time, spent_next attempts);
}
with_wait-IsWithin attempts cost extra (x ∷ []) r h k w = record {
  rounds = w.rounds;
  price = omega (arith, w.price);
  waits = omega (arith, w.waits);
  time = omega (arith, w.time, k.1, spent_next attempts);
}
with_wait-IsWithin attempts cost extra (x ∷ y ∷ ws) r h k w = absurd (omega (arith, k.0))

stop-IsWithin :
    (ending : Ending) (attempts rounds cost : ℕ)
    → attempts < 3
    → rounds ≤ 3
    → IsWithin attempts cost (stop ending rounds cost)
unfolding total
stop-IsWithin ending attempts rounds cost h k = record {
  rounds = k;
  price = omega (arith, h);
  waits = omega (arith, h);
  time = omega (arith, spent_le attempts h);
}

-- A plan that does not call the model again ends the run.
last_failure-IsWithin :
    (f : Failure) (attempts cost : ℕ) (ws : List ℕ) (again : Conducted) (action : Action)
    → calls_again action ≡ false
    → attempts < 3
    → IsWithin attempts cost (after_failure f (attempts + 1) cost ws again action)
unfolding after_failure
last_failure-IsWithin f attempts cost ws again abort h k =
    stop-IsWithin (fallen_back (some f)) attempts (attempts + 1) cost k (omega (arith, k))
last_failure-IsWithin f attempts cost ws again fallback h k =
    stop-IsWithin (fallen_back (some f)) attempts (attempts + 1) cost k (omega (arith, k))
last_failure-IsWithin f attempts cost ws again degrade_service h k =
    stop-IsWithin safe_mode attempts (attempts + 1) cost k (omega (arith, k))
last_failure-IsWithin f attempts cost ws again retry h k = absurd (cc h)
last_failure-IsWithin f attempts cost ws again self_correct h k = absurd (cc h)

next_failure-IsWithin :
    (f : Failure) (attempts cost extra : ℕ) (ws : List ℕ) (again : Conducted) (action : Action)
    → calls_again action ≡ true
    → extra ≤ 5
    → IsShort (5000 * (attempts + 2)) ws
    → IsWithin (attempts + 1) (cost + extra) again
    → IsWithin attempts cost (after_failure f (attempts + 1) (cost + extra) ws again action)
unfolding after_failure
next_failure-IsWithin f attempts cost extra ws again abort c h k w = absurd (cc c)
next_failure-IsWithin f attempts cost extra ws again fallback c h k w = absurd (cc c)
next_failure-IsWithin f attempts cost extra ws again degrade_service c h k w = absurd (cc c)
next_failure-IsWithin f attempts cost extra ws again retry c h k w =
    with_wait-IsWithin attempts cost extra ws again h k w
next_failure-IsWithin f attempts cost extra ws again self_correct c h k w =
    with_wait-IsWithin attempts cost extra ws again h k w

Reply-cases : (r : Reply) → ((t : ThoughtStep) × (r ≡ thought t)) ⊎ ((f : Failure) × (r ≡ failed f))
Reply-cases (thought t) = inl (t, refl)
Reply-cases (failed f) = inr (f, refl)

event_wait :
    (f : Failure) (attempts cost : ℕ)
    → wait_of (assess_failure (event_of f (attempts + 1) cost)) ≤ 5000 * (attempts + 2)
unfolding event_of
event_wait f attempts cost = omega (arith, assess_failure_wait (event_of f (attempts + 1) cost))

-- A plan calls the model again only before the third attempt, and costs nothing otherwise.
event_plan :
    (f : Failure) (attempts cost : ℕ)
    → (let plan = assess_failure (event_of f (attempts + 1) cost) in
        ((calls_again plan.action ≡ true) × (attempts + 1 < 3))
        ⊎ ((calls_again plan.action ≡ false) × (plan.estimated_cost ≡ 0)))
unfolding event_of
event_plan f attempts cost = elim (calls_again_within (event_of f (attempts + 1) cost)) [
  | inl (calls, early, _, _) ↦ inl (calls, early)
  | inr (stops, _, free) ↦ inr (stops, free)
]

attempt_from-IsWithin :
    (reply : ℕ → Reply) (left attempts cost : ℕ) (last : Option Failure)
    → attempts < 3
    → IsWithin attempts cost (attempt_from reply left attempts cost last)
unfolding attempt_from
attempt_from-IsWithin reply zero attempts cost last k =
    stop-IsWithin (fallen_back last) attempts attempts cost k (omega (arith, k))
attempt_from-IsWithin reply (suc left) attempts cost last k =
    elim (Reply-cases (reply (attempts + 1))) [
      | inl (t, e) ↦
          rw (e, attempt_from)
            (stop-IsWithin (answered t last) attempts (attempts + 1) cost k (omega (arith, k)))
      | inr (f, e) ↦
          let event = event_of f (attempts + 1) cost in
          let plan = assess_failure event in
          let short : IsShort (5000 * (attempts + 2)) (plan_waits plan.parameters) =
            plan_waits-IsShort plan (5000 * (attempts + 2)) (event_wait f attempts cost)
              (omega arith) in
          rw (e, attempt_from)
            (elim (event_plan f attempts cost) [
              | inl (calls, early) ↦
                  next_failure-IsWithin f attempts cost plan.estimated_cost
                    (plan_waits plan.parameters) _ plan.action calls (assess_failure_bounds event).1
                    short
                    (attempt_from-IsWithin reply left (attempts + 1) (cost + plan.estimated_cost)
                      (some f) early)
              | inr (stops, free) ↦
                  rw (free, plus_zero cost)
                    (last_failure-IsWithin f attempts cost (plan_waits plan.parameters) _
                      plan.action stops k)
            ])
    ]

after_failure-stops :
    (f : Failure) (attempts cost : ℕ) (ws : List ℕ) (again other : Conducted) (action : Action)
    → calls_again action ≡ false
    → after_failure f attempts cost ws again action ≡ after_failure f attempts cost ws other action
unfolding after_failure
after_failure-stops f attempts cost ws again other abort h = refl
after_failure-stops f attempts cost ws again other fallback h = refl
after_failure-stops f attempts cost ws again other degrade_service h = refl
after_failure-stops f attempts cost ws again other retry h = absurd (cc h)
after_failure-stops f attempts cost ws again other self_correct h = absurd (cc h)

-- After the third attempt it does not matter how many rounds are left.
third_is_last :
    (reply : ℕ → Reply) (l l' cost : ℕ) (last : Option Failure)
    → attempt_from reply (suc l) 2 cost last ≡ attempt_from reply (suc l') 2 cost last
unfolding attempt_from
third_is_last reply l l' cost last = elim (Reply-cases (reply 3)) [
  | inl (t, e) ↦ rw (e, attempt_from) refl
  | inr (f, e) ↦ elim (event_plan f 2 cost) [
    | inl (_, early) ↦ absurd (omega (arith, early))
    | inr (stops, _) ↦
        let plan = assess_failure (event_of f 3 cost) in
        let cost' = cost + plan.estimated_cost in
        rw (e, attempt_from)
          (after_failure-stops f 3 cost' (plan_waits plan.parameters)
            (attempt_from reply l 3 cost' (some f)) (attempt_from reply l' 3 cost' (some f))
            plan.action stops)
  ]
]

one_round :
    (reply : ℕ → Reply) (l l' attempts cost : ℕ) (last : Option Failure)
    → ((c : ℕ) (o : Option Failure)
        → attempt_from reply l (attempts + 1) c o ≡ attempt_from reply l' (attempts + 1) c o)
    → attempt_from reply (suc l) attempts cost last ≡ attempt_from reply (suc l') attempts cost last
unfolding attempt_from
one_round reply l l' attempts cost last h = elim (Reply-cases (reply (attempts + 1))) [
  | inl (t, e) ↦ rw (e, attempt_from) refl
  | inr (f, e) ↦
      let plan = assess_failure (event_of f (attempts + 1) cost) in
      let cost' = cost + plan.estimated_cost in
      let ws = plan_waits plan.parameters in
      rw (e, attempt_from)
        (ap (λ (again : Conducted). after_failure f (attempts + 1) cost' ws again plan.action)
          (h cost' (some f)))
]

-- Whatever the model answers, it is called at most three times, the recovery costs at most 0.0001
-- dollars, and there are at most two waits, of 25 seconds in all. It is the policy that sets these
-- limits: the run is the same if the loop allows any number of rounds more than its three.
pub attempt_all_bounds :
    (reply : ℕ → Reply) (more : ℕ)
    → ((attempt_all reply).attempts ≤ 3)
      × ((attempt_all reply).cost ≤ 10)
      × (length (attempt_all reply).waits ≤ 2)
      × (total (attempt_all reply).waits ≤ 25000)
      × (attempt_from reply (3 + more) 0 0 none ≡ attempt_all reply)
unfolding attempt_all spent
attempt_all_bounds reply more =
    let w = attempt_from-IsWithin reply 3 0 0 none (omega arith) in
    let three : 3 + more ≡ suc (suc (suc more)) = omega arith in
    (
      w.rounds,
      omega (arith, w.price),
      omega (arith, w.waits),
      omega (arith, w.time),
      rw three (
          one_round reply (suc (suc more)) 2 0 0 none
            (λ c o. one_round reply (suc more) 1 1 c o (λ d p. third_is_last reply more 0 d p))),
    )
