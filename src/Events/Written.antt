-- ===== src/Events/Written.antt =====
-- Every event that is published is written to the table, in its turn.
use mathlib.Core.List.{append_assoc, append-nil}
use dreamweaver.Prelude.{
  ◌<◌, String, Bool, true, false, List, [], ◌∷◌, ◌++◌, map, ◌≡◌, ◌⊎◌, refl, ◌∙◌, sym, ap, arith,
  any, any-append, length, str_eq, Bool-cases, inl, inr,
}
use dreamweaver.Events.{Event}
use dreamweaver.Events.Bus.{
  Bus, Row, Answer, Operation, publish_call, row_received, timer_fired, subscribe_call,
  unsubscribe_call, opened, cleanup, publish, receive, operate, operate_all, is_processed, row_of,
  remember, written,
}
use dreamweaver.Events.Queue.{
  IsKept, recorded, flush-recorded, flush-known, enqueue-recorded, enqueue-short, enqueue-timed,
  enqueue-known, cleanup-keeps, known-remember, new-unprocessed,
}

-- The events that are published, in their order.
abbrev pub published : List Operation → List Event
published [] = []
published (publish_call e ∷ os) = e ∷ published os
published (row_received e ∷ os) = published os
published (timer_fired ∷ os) = published os
published (subscribe_call t h ∷ os) = published os
published (unsubscribe_call t h ∷ os) = published os

-- No event is published that was published before, or that the database reported before.
abbrev pub AreDistinct : List String → List Operation → Type 0
AreDistinct seen [] = Unit {0}
AreDistinct seen (publish_call e ∷ os) =
    (any (str_eq e.id) seen ≡ false) × AreDistinct (e.id ∷ seen) os
AreDistinct seen (row_received e ∷ os) = AreDistinct (e.id ∷ seen) os
AreDistinct seen (timer_fired ∷ os) = AreDistinct seen os
AreDistinct seen (subscribe_call t h ∷ os) = AreDistinct seen os
AreDistinct seen (unsubscribe_call t h ∷ os) = AreDistinct seen os

module _ (answer : List Row → Answer) (throws : String → Event → Bool)
    (accepts : (rows : List Row) → answer rows ≡ written) where
  publish-recorded :
      (e : Event) (seen : List String) (b : Bus)
      → IsKept seen b
      → any (str_eq e.id) seen ≡ false
      → recorded (publish answer throws e b) ≡ recorded b ++ row_of e ∷ []
  unfolding publish
  publish-recorded e seen b k new =
      let kept = cleanup-keeps (remember e.id b) in
      rw (new-unprocessed e.id seen b k new) (
        enqueue-recorded answer accepts (row_of e) (cleanup (remember e.id b)) (rw kept.1 k.short)
        ∙ rw (kept.0, kept.1) refl)

  publish-IsKept :
      (e : Event) (seen : List String) (b : Bus)
      → IsKept seen b
      → any (str_eq e.id) seen ≡ false
      → IsKept (e.id ∷ seen) (publish answer throws e b)
  unfolding publish
  publish-IsKept e seen b k new =
      let b' = cleanup (remember e.id b) in
      rw (new-unprocessed e.id seen b k new) (record {
        known = λ j h.
            known-remember e seen b k j (rw (enqueue-known answer accepts (row_of e) b') at h);
        short =
            enqueue-short answer accepts (row_of e) b'
              (rw (cleanup-keeps (remember e.id b)).1 k.short);
        timed = enqueue-timed answer accepts (row_of e) b';
      })

  receive-IsKept :
      (e : Event) (seen : List String) (b : Bus)
      → IsKept seen b
      → IsKept (e.id ∷ seen) (receive throws e b)
  unfolding receive
  receive-IsKept e seen b k = elim (Bool-cases (is_processed e.id b)) [
    | inl p ↦
        rw p
          (record { known = λ j h. ground (arith, k.known j h); short = k.short; timed = k.timed })
    | inr n ↦ rw n (record {
      known =
          λ j h. ground (arith, any-append (str_eq j) b.processed_event_ids (e.id ∷ []), k.known j);
      short = k.short;
      timed = k.timed;
    })
  ]

  receive-recorded : (e : Event) (b : Bus) → recorded (receive throws e b) ≡ recorded b
  unfolding receive
  receive-recorded e b = ground arith

  timer-recorded : (b : Bus) → recorded (operate answer throws timer_fired b) ≡ recorded b
  unfolding operate
  timer-recorded b = elim (Bool-cases b.flush_timer) [
    | inl set ↦ let done = flush-recorded answer accepts b in simp (set, done.0, done.1, append-nil)
    | inr unset ↦ simp unset
  ]

  timer-IsKept :
      (seen : List String) (b : Bus)
      → IsKept seen b
      → IsKept seen (operate answer throws timer_fired b)
  unfolding operate
  timer-IsKept seen b k = elim (Bool-cases b.flush_timer) [
    | inl set ↦ simp set (record {
      known = λ j h. k.known j (rw (flush-known answer accepts b) at h);
      short = rw (flush-recorded answer accepts b).1 (omega arith);
      timed = inl (flush-recorded answer accepts b).1;
    })
    | inr unset ↦ simp unset k
  ]

  -- After the timer nothing waits: a queue with events has a timer.
  timer-table :
      (b : Bus)
      → (b.event_queue ≡ []) ⊎ (b.flush_timer ≡ true)
      → (operate answer throws timer_fired b).table ≡ recorded b
  unfolding operate
  timer-table b (inl empty) = ground (arith, flush-recorded answer accepts b, append-nil b.table)
  timer-table b (inr set) = ground (arith, flush-recorded answer accepts b)

  operate_all-recorded :
      (os : List Operation) (seen : List String) (b : Bus)
      → IsKept seen b
      → AreDistinct seen os
      → (recorded (operate_all answer throws os b) ≡ recorded b ++ map row_of (published os))
        × ((now_seen : List String) × IsKept now_seen (operate_all answer throws os b))
  unfolding operate_all
  operate_all-recorded [] seen b k d = (sym (append-nil (recorded b)), (seen, k))
  operate_all-recorded (publish_call e ∷ os) seen b k (new, d) =
      let next = publish answer throws e b in
      let rest = operate_all-recorded os (e.id ∷ seen) next (publish-IsKept e seen b k new) d in
      let rows = map row_of (published os) in
      (
        rest.0
            ∙ ap (λ (r : List Row). r ++ rows) (publish-recorded e seen b k new)
            ∙ append_assoc (recorded b) (row_of e ∷ []) rows,
        rest.1,
      )
  operate_all-recorded (row_received e ∷ os) seen b k d =
      let rest =
        operate_all-recorded os (e.id ∷ seen) (receive throws e b) (receive-IsKept e seen b k) d in
      (
        rest.0 ∙ ap (λ (r : List Row). r ++ map row_of (published os)) (receive-recorded e b),
        rest.1,
      )
  operate_all-recorded (timer_fired ∷ os) seen b k d =
      let rest =
        operate_all-recorded os seen (operate answer throws timer_fired b) (timer-IsKept seen b k)
          d in
      (rest.0 ∙ ap (λ (r : List Row). r ++ map row_of (published os)) (timer-recorded b), rest.1)
  operate_all-recorded (subscribe_call t h ∷ os) seen b k d =
      operate_all-recorded os seen (operate answer throws (subscribe_call t h) b)
        (record { known = k.known; short = k.short; timed = k.timed }) d
  operate_all-recorded (unsubscribe_call t h ∷ os) seen b k d =
      operate_all-recorded os seen (operate answer throws (unsubscribe_call t h) b)
        (record { known = k.known; short = k.short; timed = k.timed }) d

  -- If the database accepts every batch, and answers before the next thing happens to the bus, then
  -- whatever is published since the bus was opened, each identifier once and none that the database
  -- reported before (of another process, say), is in the table or waits in the queue, in the order of the calls, none missing
  -- and none twice, after the rows that the table had. Less than a batch waits, and if the
  -- timer fires once more, all is in the table.
  pub all_written :
      (os : List Operation) (rows : List Row)
      → AreDistinct [] os
      → (let b = operate_all answer throws os (opened rows) in
          (b.table ++ b.event_queue ≡ rows ++ map row_of (published os))
          × (length b.event_queue < 25)
          × ((operate answer throws timer_fired b).table ≡ rows ++ map row_of (published os)))
  all_written os rows d =
      let start : IsKept [] (opened rows) = record {
        known = λ j h. h;
        short = omega arith;
        timed = inl refl;
      } in
      let done = operate_all-recorded os [] (opened rows) start d in
      let kept = done.1.1 in
      let all = done.0 ∙ ap (λ (r : List Row). r ++ map row_of (published os)) (append-nil rows) in
      (all, kept.short, timer-table (operate_all answer throws os (opened rows)) kept.timed ∙ all)
