-- ===== src/Events/Queue.antt =====
-- What waits in the queue of the bus, under any calls of it.
use mathlib.Core.List.{append_assoc, append-nil}
use dreamweaver.Prelude.{
  ℕ, zero, suc, ◌<◌, String, Bool, true, false, List, [], ◌∷◌, ◌++◌, ◌≡◌, ◌⊎◌, refl, arith, any,
  any-append, length, length-append, ltb, leb, str_eq, Bool-cases, inl, inr,
}
use dreamweaver.Events.{Event}
use dreamweaver.Events.Bus.{
  Bus, Row, Answer, cleanup, drop, enqueue, flush_events, is_processed, remember, written,
}

-- The bus remembers only what was seen; what waits is less than a batch, and has a timer.
pub record IsKept (seen : List String) (b : Bus) : Type 0 where
  pub known :
      (j : String) → any (str_eq j) b.processed_event_ids ≡ true → any (str_eq j) seen ≡ true
  pub short : length b.event_queue < 25
  pub timed : (b.event_queue ≡ []) ⊎ (b.flush_timer ≡ true)

abbrev pub recorded : Bus → List Row
recorded b = b.table ++ b.event_queue

pub any-drop {ℓ} :
    {A : Type ℓ} (p : A → Bool) (n : ℕ) (xs : List A) → any p (drop n xs) ≡ true → any p xs ≡ true
unfolding drop
any-drop p zero xs h = h
any-drop p (suc n) [] h = h
any-drop p (suc n) (x ∷ xs) h = ground (arith, any-drop p n xs h)

pub cleanup-any :
    (j : String) (b : Bus)
    → any (str_eq j) (cleanup b).processed_event_ids ≡ true
    → any (str_eq j) b.processed_event_ids ≡ true
unfolding cleanup
cleanup-any j b h = elim (Bool-cases (ltb 2000 (length b.processed_event_ids))) [
  | inl full ↦ any-drop (str_eq j) 500 b.processed_event_ids (rw full at h)
  | inr fits ↦ rw fits at h
]

module _ (answer : List Row → Answer) (accepts : (rows : List Row) → answer rows ≡ written) where
  pub flush-recorded :
      (b : Bus)
      → ((flush_events answer b).table ≡ recorded b) × ((flush_events answer b).event_queue ≡ [])
  unfolding flush_events
  flush-recorded b = ground (arith, accepts b.event_queue, append-nil b.table)

  pub flush-known : (b : Bus) → (flush_events answer b).processed_event_ids ≡ b.processed_event_ids
  unfolding flush_events
  flush-known b = ground (arith, accepts b.event_queue)

  pub enqueue-recorded :
      (row : Row) (b : Bus)
      → length b.event_queue < 25
      → recorded (enqueue answer row b) ≡ recorded b ++ row ∷ []
  unfolding enqueue
  enqueue-recorded row b h = ground (
    arith,
    accepts (b.event_queue ++ row ∷ []),
    append_assoc b.table b.event_queue (row ∷ []),
    append-nil (b.table ++ (b.event_queue ++ row ∷ [])),
  )

  pub enqueue-short :
      (row : Row) (b : Bus)
      → length b.event_queue < 25
      → length (enqueue answer row b).event_queue < 25
  unfolding enqueue
  enqueue-short row b h =
      ground (arith, accepts (b.event_queue ++ row ∷ []), length-append b.event_queue (row ∷ []))

  pub enqueue-timed :
      (row : Row) (b : Bus)
      → ((enqueue answer row b).event_queue ≡ []) ⊎ ((enqueue answer row b).flush_timer ≡ true)
  unfolding enqueue
  enqueue-timed row b = elim (Bool-cases (leb 25 (length (b.event_queue ++ row ∷ [])))) [
    | inl full ↦
        inl (rw full (flush-recorded (record b { event_queue = b.event_queue ++ row ∷ [] })).1)
    | inr more ↦ inr (rw more refl)
  ]

  pub enqueue-known :
      (row : Row) (b : Bus) → (enqueue answer row b).processed_event_ids ≡ b.processed_event_ids
  unfolding enqueue
  enqueue-known row b = ground (arith, accepts (b.event_queue ++ row ∷ []))

-- The fields that `cleanup` leaves.
pub cleanup-keeps :
    (b : Bus)
    → ((cleanup b).table ≡ b.table)
      × ((cleanup b).event_queue ≡ b.event_queue)
      × ((cleanup b).flush_timer ≡ b.flush_timer)
unfolding cleanup
cleanup-keeps b = ground arith

-- An identifier that is known after one was taken in is that one, or was seen before.
pub known-remember :
    (e : Event) (seen : List String) (b : Bus)
    → IsKept seen b
    → (j : String) → any (str_eq j) (cleanup (remember e.id b)).processed_event_ids ≡ true
    → any (str_eq j) (e.id ∷ seen) ≡ true
known-remember e seen b k j h =
    let taken = cleanup-any j (remember e.id b) h in
    ground (arith, any-append (str_eq j) b.processed_event_ids (e.id ∷ []), k.known j)

pub new-unprocessed :
    (id : String) (seen : List String) (b : Bus)
    → IsKept seen b
    → any (str_eq id) seen ≡ false
    → is_processed id b ≡ false
new-unprocessed id seen b k new = ground (arith, k.known id)
