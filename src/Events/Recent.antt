-- ===== src/Events/Recent.antt =====
-- The identifiers that the bus took in, and the calls of the handlers for one of them.
use mathlib.Core.List.{append_assoc, append-nil}
use dreamweaver.Prelude.{
  ℕ, zero, suc, ◌≤◌, String, Bool, true, false, ◌||◌, List, [], ◌∷◌, ◌++◌, ◌≡◌, refl, ◌∙◌, ap,
  arith, any, any-append, length, length-append, ltb, ltb→lt, str_eq, eq_refl, eq_iff, Bool-cases,
  inl, inr, if◌then◌else◌, or_else, lookup,
}
use dreamweaver.Events.{Event, Call, call_each, notify}
use dreamweaver.Events.Bus.{Bus, Row, Answer, cleanup, drop, enqueue, flush_events}

-- The calls for the event with an identifier.
abbrev pub calls_of : String → List Call → List Call
calls_of id [] = []
calls_of id (c ∷ cs) = let rest = calls_of id cs in if str_eq id c.event.id then c ∷ rest else rest

-- At most `k` identifiers were taken in after `id`.
abbrev pub Recent : ℕ → String → List String → Type 0
Recent k id ids =
    (before : List String) × (after : List String) × (ids ≡ before ++ id ∷ after)
    × (length after ≤ k)

pub drop-append {ℓ} :
    {A : Type ℓ} (n : ℕ) (xs ys : List A) → n ≤ length xs → drop n (xs ++ ys) ≡ drop n xs ++ ys
unfolding drop
drop-append zero xs ys h = refl
drop-append (suc n) [] ys h = absurd (omega arith)
drop-append (suc n) (x ∷ xs) ys h = drop-append n xs ys (omega arith)

pub calls_of-append :
    (id : String) (cs ds : List Call) → calls_of id (cs ++ ds) ≡ calls_of id cs ++ calls_of id ds
calls_of-append id [] ds = refl
calls_of-append id (c ∷ cs) ds = ground (arith, calls_of-append id cs ds)

pub or_true : (b : Bool) → (b || true) ≡ true
or_true true = refl
or_true false = refl

pub Recent-any :
    {k : ℕ} {id : String} {ids : List String} → Recent k id ids → any (str_eq id) ids ≡ true
Recent-any {id} (before, after, e, h) =
    rw (e, any-append (str_eq id) before (id ∷ after), eq_refl id)
      (or_true (any (str_eq id) before))

pub Recent-snoc :
    {k : ℕ} {id : String} {ids : List String} (j : String)
    → Recent k id ids
    → Recent (suc k) id (ids ++ j ∷ [])
Recent-snoc {id} j (before, after, e, h) = (
  before,
  after ++ j ∷ [],
  rw e (append_assoc before (id ∷ after) (j ∷ [])),
  omega (arith, length-append after (j ∷ [])),
)

pub Recent-weaken :
    {k : ℕ} {id : String} {ids : List String} → Recent k id ids → Recent (suc k) id ids
Recent-weaken (before, after, e, h) = (before, after, e, omega arith)

pub cleanup-Recent :
    {k : ℕ} {id : String} (b : Bus)
    → k ≤ 1500
    → Recent k id b.processed_event_ids
    → Recent k id (cleanup b).processed_event_ids
unfolding cleanup
cleanup-Recent {id} b m (before, after, e, h) =
    elim (Bool-cases (ltb 2000 (length b.processed_event_ids))) [
      | inl full ↦
          let size = ap length e ∙ length-append before (id ∷ after) in
          (
            drop 500 before,
            after,
            rw (full, e)
                (drop-append 500 before (id ∷ after)
                  (omega (arith, size, ltb→lt 2000 (length b.processed_event_ids) full))),
            h,
          )
      | inr fits ↦ (before, after, rw fits e, h)
    ]

pub cleanup-keeps_calls :
    (b : Bus) → ((cleanup b).calls ≡ b.calls) × ((cleanup b).handlers ≡ b.handlers)
unfolding cleanup
cleanup-keeps_calls b = ground arith

-- An event that was not taken in has another identifier.
pub other_id :
    (id j : String) (ids : List String)
    → any (str_eq id) ids ≡ true
    → any (str_eq j) ids ≡ false
    → str_eq id j ≡ false
other_id id j ids old new = elim (Bool-cases (str_eq id j)) [
  | inl same ↦ let e : id ≡ j = (eq_iff id j).0 same in absurd (ground (arith, e))
  | inr other ↦ other
]

module _ (answer : List Row → Answer) where
  pub flush-keeps :
      (b : Bus)
      → ((flush_events answer b).processed_event_ids ≡ b.processed_event_ids)
        × ((flush_events answer b).calls ≡ b.calls)
        × ((flush_events answer b).handlers ≡ b.handlers)
  unfolding flush_events
  flush-keeps b = ground arith

  pub enqueue-keeps :
      (row : Row) (b : Bus)
      → ((enqueue answer row b).processed_event_ids ≡ b.processed_event_ids)
        × ((enqueue answer row b).calls ≡ b.calls)
        × ((enqueue answer row b).handlers ≡ b.handlers)
  unfolding enqueue
  enqueue-keeps row b = ground arith

module _ (throws : String → Event → Bool) where
  pub calls_of-call_each :
      (id : String) (e : Event) (hs : List String)
      → calls_of id (call_each throws e hs) ≡ (if str_eq id e.id then call_each throws e hs else [])
  unfolding call_each
  calls_of-call_each id e [] = ground arith
  calls_of-call_each id e (h ∷ hs) = ground (arith, calls_of-call_each id e hs)

  pub calls_of-notify_other :
      (id : String) (e : Event) (b : Bus) (ds : List Call)
      → str_eq id e.id ≡ false
      → calls_of id (ds ++ notify throws e b.handlers) ≡ calls_of id ds
  unfolding notify
  calls_of-notify_other id e b ds h =
      let hs = or_else (lookup e.type b.handlers) [] in
      calls_of-append id ds (call_each throws e hs)
      ∙ rw (calls_of-call_each id e hs, h) (append-nil (calls_of id ds))
