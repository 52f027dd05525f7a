-- ===== src/Conductor/Turns/Endings.antt =====
-- When a turn of the conversation ends with the emergency reply.
use dreamweaver.Prelude.{
  ℕ, ◌+◌, ◌*◌, String, Option, none, some, is_some, truthy, if◌then◌else◌, ap, Bool, true, false,
  ◌&&◌, ◌||◌, ◌≡◌, refl, inl, inr, arith, ltb, Bool-cases,
}
use dreamweaver.Session.{Snapshot}
use dreamweaver.Quality.{check_metric, thresholds, is_beyond}
use dreamweaver.Quality.Breaches.{completion_rate_breach}
use dreamweaver.Conductor.{SessionPort, get_or_init_state}
use dreamweaver.Conductor.Attempts.{Reply, thought, failed}
use dreamweaver.Conductor.Turns.{
  Learned, learn, counter, count_turn, TurnEnding, replied, emergency, too_many_interventions,
  too_slow, conclude, rejects, Turn, take_turn, process_turn,
}
use dreamweaver.Conductor.Turns.Counts.{
  count_turn-interactions, count_turn-interventions, learn-interventions,
}

abbrev pub fails : Reply → Bool
fails (thought t) = false
fails (failed f) = true

abbrev pub is_emergency : TurnEnding → Bool
is_emergency emergency = true
is_emergency (replied reply t) = false

-- Whether a turn that does not throw ends with the emergency reply.
abbrev pub ends_emergency : {S : Type 0} → Option (Turn S) → Option Bool
ends_emergency none = none
ends_emergency (some turn) = some (is_emergency turn.ending)

-- The gate on the interventions, in numbers.
too_many_interventions_lem :
    (gate : Bool) (s : Snapshot) (k n : ℕ)
    → counter "interventions" s ≡ k
    → counter "interactions" s ≡ n + 1
    → too_many_interventions gate s ≡ (gate && ltb (3 * (n + 1)) (10 * k))
unfolding too_many_interventions
too_many_interventions_lem gate s k n e d =
    rw (e, d, completion_rate_breach k (n + 1) (omega arith)) refl

too_slow_lem : (gate : Bool) (ms : ℕ) → too_slow gate ms ≡ (gate && ltb 3000 ms)
unfolding too_slow check_metric thresholds is_beyond
too_slow_lem gate ms = ground arith

module _ (port : SessionPort) where
  conclude-emergency :
      (now : ℕ) (id user : String) (memory gate : Bool) (ms : ℕ) (l : Learned) (reply : Reply)
      (store : port.Store)
      → is_emergency (conclude port now id user memory gate ms l reply store).ending
        ≡ (fails reply || (gate && ltb 3000 ms))
  conclude-emergency now id user memory gate ms l (failed f) store = refl
  conclude-emergency now id user memory gate ms l (thought t) store =
      ground (arith, too_slow_lem gate ms)

  take_turn-emergency :
      (now : ℕ) (id user : String) (memory gate : Bool) (message : String) (ms : ℕ) (reply : Reply)
      (store : port.Store)
      → (let before = (get_or_init_state port now id user store).state.snapshot in
          let l = learn memory user before.last_suggested_theme message in
          let n = counter "interactions" before + 1 in
          let k = counter "interventions" before + l.interventions in
          is_emergency (take_turn port now id user memory gate message ms reply store).ending
          ≡ ((gate && ltb (3 * n) (10 * k)) || (fails reply || (gate && ltb 3000 ms))))
  unfolding take_turn
  take_turn-emergency now id user memory gate message ms reply store =
      let opened = get_or_init_state port now id user store in
      let before = opened.state.snapshot in
      let l = learn memory user before.last_suggested_theme message in
      let many =
        too_many_interventions_lem gate (count_turn l before) _ _
          (count_turn-interventions l before) (count_turn-interactions l before) in
      elim (Bool-cases (too_many_interventions gate (count_turn l before))) [
        | inl e ↦ rw (← many, e) refl
        | inr e ↦ rw (← many, e) (conclude-emergency now id user memory gate ms l reply _)
      ]

  -- A turn throws exactly if the identifier of the user is no UUID. Otherwise it ends with the
  -- emergency reply exactly if the call of the model fails, or there is a quality gate and the model
  -- takes longer than three seconds, or more than three tenths of the interactions, this one
  -- included, were interventions, where a rejection of the theme that was suggested last to an agent
  -- with a memory is one.
  pub turn_emergency :
      (is_uuid : String → Bool) (now : ℕ) (id user : String) (memory gate : Bool) (message : String)
      (ms : ℕ) (reply : Reply) (store : port.Store)
      → (let before = (get_or_init_state port now id user store).state.snapshot in
          let asked = memory && is_some (truthy before.last_suggested_theme) in
          let n = counter "interactions" before + 1 in
          let k = counter "interventions" before + (if asked && rejects message then 1 else 0) in
          ends_emergency (process_turn port is_uuid now id user memory gate message ms reply store)
          ≡ (if is_uuid user
              then some ((gate && ltb (3 * n) (10 * k)) || (fails reply || (gate && ltb 3000 ms)))
              else none))
  unfolding process_turn
  turn_emergency is_uuid now id user memory gate message ms reply store =
      let before = (get_or_init_state port now id user store).state.snapshot in
      elim (Bool-cases (is_uuid user)) [
        | inl e ↦
            rw (e, ← learn-interventions memory user before.last_suggested_theme message)
              (ap some (take_turn-emergency now id user memory gate message ms reply store))
        | inr e ↦ rw e refl
      ]
