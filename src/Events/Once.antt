-- ===== src/Events/Once.antt =====
-- An event reaches its handlers once, although the database reports it back and publishers repeat it.
use dreamweaver.Prelude.{
  ℕ, suc, ◌+◌, ◌≤◌, ◌<◌, String, Bool, true, false, List, [], ◌∷◌, ◌++◌, ◌≡◌, refl, ◌∙◌, arith,
  length, eq_refl, Bool-cases, inl, inr, or_else, lookup,
}
use dreamweaver.Events.{Event, call_each, notify}
use dreamweaver.Events.Bus.{
  Bus, Row, Answer, Operation, publish_call, row_received, timer_fired, subscribe_call,
  unsubscribe_call, cleanup, enqueue, flush_events, publish, receive, operate, operate_all,
  is_processed, row_of, remember,
}
use dreamweaver.Events.Recent.{
  calls_of, Recent, calls_of-append, Recent-any, Recent-snoc, Recent-weaken, cleanup-Recent,
  cleanup-keeps_calls, other_id, flush-keeps, enqueue-keeps, calls_of-call_each,
  calls_of-notify_other,
}

module _ (answer : List Row → Answer) (throws : String → Event → Bool) where
  publish-Recent :
      (e : Event) (k : ℕ) (id : String) (b : Bus)
      → k < 1500
      → Recent k id b.processed_event_ids
      → Recent (suc k) id (publish answer throws e b).processed_event_ids
  unfolding publish
  publish-Recent e k id b m r = elim (Bool-cases (is_processed e.id b)) [
    | inl old ↦ rw old (Recent-weaken r)
    | inr new ↦
        rw (new, (enqueue-keeps answer (row_of e) (cleanup (remember e.id b))).0)
          (cleanup-Recent (remember e.id b) (omega arith) (Recent-snoc e.id r))
  ]

  publish-calls_of :
      (e : Event) (id : String) (b : Bus)
      → is_processed id b ≡ true
      → calls_of id (publish answer throws e b).calls ≡ calls_of id b.calls
  unfolding publish
  publish-calls_of e id b p = elim (Bool-cases (is_processed e.id b)) [
    | inl old ↦ rw old refl
    | inr new ↦
        let b' = enqueue answer (row_of e) (cleanup (remember e.id b)) in
        let other = other_id id e.id b.processed_event_ids p new in
        let kept = (enqueue-keeps answer (row_of e) (cleanup (remember e.id b))).1 in
        rw new (
          calls_of-notify_other throws id e b' b'.calls other
          ∙ rw (kept, (cleanup-keeps_calls (remember e.id b)).0) refl)
  ]

  receive-Recent :
      (e : Event) (k : ℕ) (id : String) (b : Bus)
      → Recent k id b.processed_event_ids
      → Recent (suc k) id (receive throws e b).processed_event_ids
  unfolding receive
  receive-Recent e k id b r = elim (Bool-cases (is_processed e.id b)) [
    | inl old ↦ rw old (Recent-weaken r)
    | inr new ↦ rw new (Recent-snoc e.id r)
  ]

  receive-calls_of :
      (e : Event) (id : String) (b : Bus)
      → is_processed id b ≡ true
      → calls_of id (receive throws e b).calls ≡ calls_of id b.calls
  unfolding receive
  receive-calls_of e id b p = elim (Bool-cases (is_processed e.id b)) [
    | inl old ↦ rw old refl
    | inr new ↦
        let other = other_id id e.id b.processed_event_ids p new in
        rw new (calls_of-notify_other throws id e (remember e.id b) b.calls other)
  ]

  -- One more operation, on a bus that took the event in not long ago.
  operate-Recent :
      (o : Operation) (k : ℕ) (id : String) (b : Bus)
      → k < 1500
      → Recent k id b.processed_event_ids
      → Recent (suc k) id (operate answer throws o b).processed_event_ids
  unfolding operate flush_events
  operate-Recent (publish_call e) k id b m r = publish-Recent e k id b m r
  operate-Recent (row_received e) k id b m r = receive-Recent e k id b r
  operate-Recent timer_fired k id b m r = elim (Bool-cases b.flush_timer) [
    | inl set ↦ rw (set, (flush-keeps answer b).0) (Recent-weaken r)
    | inr unset ↦ rw unset (Recent-weaken r)
  ]
  operate-Recent (subscribe_call t h) k id b m r = Recent-weaken r
  operate-Recent (unsubscribe_call t h) k id b m r = Recent-weaken r

  operate-calls_of :
      (o : Operation) (id : String) (b : Bus)
      → is_processed id b ≡ true
      → calls_of id (operate answer throws o b).calls ≡ calls_of id b.calls
  unfolding operate
  operate-calls_of (publish_call e) id b p = publish-calls_of e id b p
  operate-calls_of (row_received e) id b p = receive-calls_of e id b p
  operate-calls_of timer_fired id b p = ground (arith, flush-keeps answer b)
  operate-calls_of (subscribe_call t h) id b p = refl
  operate-calls_of (unsubscribe_call t h) id b p = refl

  operate_all_lem :
      (os : List Operation) (k : ℕ) (id : String) (b : Bus)
      → length os + k ≤ 1500
      → Recent k id b.processed_event_ids
      → (is_processed id (operate_all answer throws os b) ≡ true)
        × (calls_of id (operate_all answer throws os b).calls ≡ calls_of id b.calls)
  unfolding operate_all
  operate_all_lem [] k id b m r = (Recent-any r, refl)
  operate_all_lem (o ∷ os) k id b m r =
      let r' = operate-Recent o k id b (omega arith) r in
      let rest = operate_all_lem os (suc k) id (operate answer throws o b) (omega arith) r' in
      (rest.0, rest.1 ∙ operate-calls_of o id b (Recent-any r))

  publish-calls_new :
      (e : Event) (b : Bus)
      → is_processed e.id b ≡ false
      → calls_of e.id (publish answer throws e b).calls
        ≡ calls_of e.id b.calls ++ notify throws e b.handlers
  unfolding publish notify
  publish-calls_new e b new =
      let kept = enqueue-keeps answer (row_of e) (cleanup (remember e.id b)) in
      let same = cleanup-keeps_calls (remember e.id b) in
      let hs = or_else (lookup e.type b.handlers) [] in
      rw (new, kept.1, kept.2, same.0, same.1)
        (calls_of-append e.id b.calls (call_each throws e hs)
          ∙ rw (calls_of-call_each throws e.id e hs, eq_refl e.id) refl)

  pub delivered_once :
      (e : Event) (os : List Operation) (b : Bus)
      → is_processed e.id b ≡ false
      → length os ≤ 1500
      → (let b' = operate_all answer throws os (publish answer throws e b) in
          (calls_of e.id b'.calls ≡ calls_of e.id b.calls ++ notify throws e b.handlers)
          × (publish answer throws e b' ≡ b')
          × (receive throws e b' ≡ b'))
  unfolding publish receive
  delivered_once e os b new m =
      let kept = enqueue-keeps answer (row_of e) (cleanup (remember e.id b)) in
      let first = cleanup-Recent (remember e.id b) (omega arith) (
        let r : Recent 0 e.id (b.processed_event_ids ++ e.id ∷ []) =
          (b.processed_event_ids, [], refl, omega arith) in
        r) in
      let rest =
        operate_all_lem os 0 e.id (publish answer throws e b) (omega arith)
          (rw (new, kept.0) first) in
      (rest.1 ∙ publish-calls_new e b new, rw rest.0 refl, rw rest.0 refl)
