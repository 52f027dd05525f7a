-- ===== src/Events/Refused.antt =====
-- What becomes of a batch that the database refuses.
use dreamweaver.Prelude.{
  String, Bool, false, List, [], ◌∷◌, ◌++◌, ◌≡◌, ◌≢◌, ◌∙◌, arith, length, length-append,
}
use dreamweaver.Events.{Event}
use dreamweaver.Events.Queue.{cleanup-keeps}
use dreamweaver.Events.Once.{delivered_once}
use dreamweaver.Events.Bus.{
  Bus, Row, Answer, cleanup, enqueue, publish, operate_all, is_processed, row_of, remember, written,
}

module _ (answer : List Row → Answer) (throws : String → Event → Bool) where
  enqueue-refused :
      (row : Row) (b : Bus)
      → length b.event_queue ≡ 24
      → answer (b.event_queue ++ row ∷ []) ≢ written
      → ((enqueue answer row b).table ≡ b.table) × ((enqueue answer row b).event_queue ≡ [])
  unfolding enqueue
  enqueue-refused row b full refused =
      ground (arith, refused, length-append b.event_queue (row ∷ []))

  -- The event that fills the queue takes the others along if the database refuses the batch: whatever
  -- the error, a duplicate key included, none of the waiting events nor the new one gets into the
  -- table, nothing waits any longer, and no error is thrown; publishing the event again does nothing.
  pub refused_batch_lost :
      (e : Event) (b : Bus)
      → is_processed e.id b ≡ false
      → length b.event_queue ≡ 24
      → answer (b.event_queue ++ row_of e ∷ []) ≢ written
      → (let b' = publish answer throws e b in
          (b'.table ≡ b.table) × (b'.event_queue ≡ []) × (publish answer throws e b' ≡ b'))
  unfolding publish operate_all
  refused_batch_lost e b new full refused =
      let kept = cleanup-keeps (remember e.id b) in
      let fate =
        enqueue-refused (row_of e) (cleanup (remember e.id b)) (rw kept.1 full)
          (rw kept.1 refused) in
      (
        rw new (fate.0 ∙ kept.0),
        rw new fate.1,
        (delivered_once answer throws e [] b new (omega arith)).1,
      )
