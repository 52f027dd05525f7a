-- ===== src/Events/Bus.antt =====
-- The bus that writes its events to a table in batches (`SupabaseEventBus`). What the database
-- answers to a batch is a parameter, and so is which handlers throw. A batch is answered before the next
-- thing happens to the bus: a `publish` that waits for the `insert` of a full batch is one step, and
-- calls that come while it waits, whose batches the database might take in another order, are not
-- modelled.
use dreamweaver.Prelude.{
  ℕ, zero, suc, String, Option, Bool, true, false, List, [], ◌∷◌, ◌++◌, any, length, Dict, lookup,
  ltb, leb, str_eq, if◌then◌else◌,
}
use dreamweaver.Events.{Event, Handlers, Call, notify, subscribe, unsubscribe}

pub record Row : Type 0 where
  pub id : String
  pub user_id : Option String
  pub request_id : String
  pub trace_id : Option String
  pub type : String
  pub payload : Dict String
  pub occurred_at : ℕ

-- The row of an event.
abbrev pub row_of : Event → Row
row_of e = record {
  id = e.id;
  user_id = lookup "userId" e.payload;
  request_id = e.request_id;
  trace_id = e.trace_id;
  type = e.type;
  payload = e.payload;
  occurred_at = e.timestamp;
}

-- The answer to a batch: written, or refused with a duplicate key or another error.
pub data Answer : Type 0 where
  written duplicate_key other_error : Answer

-- The fields of the bus, with the table and the calls of the handlers.
pub record Bus : Type 0 where
  pub handlers : Handlers
  pub processed_event_ids : List String
  pub event_queue : List Row
  pub flush_timer : Bool
  pub table : List Row
  pub calls : List Call

-- What the constructor makes, over a table that has rows already.
abbrev pub opened : List Row → Bus
opened rows = record {
  handlers = [];
  processed_event_ids = [];
  event_queue = [];
  flush_timer = false;
  table = rows;
  calls = [];
}

abbrev pub batch_size : ℕ
batch_size = 25

unfoldable pub drop {ℓ} : {A : Type ℓ} → ℕ → List A → List A
drop zero xs = xs
drop (suc n) [] = []
drop (suc n) (x ∷ xs) = drop n xs

abbrev pub is_processed : String → Bus → Bool
is_processed id b = any (str_eq id) b.processed_event_ids

abbrev pub remember : String → Bus → Bus
remember id b = record b { processed_event_ids = b.processed_event_ids ++ id ∷ [] }

-- More than 2000 identifiers: the oldest 500 are forgotten.
unfoldable pub cleanup : Bus → Bus
unfolding drop
cleanup b =
    if ltb 2000 (length b.processed_event_ids)
    then record b { processed_event_ids = drop 500 b.processed_event_ids }
    else b

-- What happens to a bus: calls of it, rows from the database, and the timer.
pub data Operation : Type 0 where
  publish_call : Event → Operation
  row_received : Event → Operation
  timer_fired : Operation
  subscribe_call : (event_type handler : String) → Operation
  unsubscribe_call : (event_type handler : String) → Operation

module _ (answer : List Row → Answer) where
  abbrev insert_rows : Answer → Bus → Bus
  insert_rows written b = record b { table = b.table ++ b.event_queue; event_queue = [] }
  insert_rows duplicate_key b = record b { event_queue = [] }
  insert_rows other_error b = record b { event_queue = [] }

  abbrev stop_timer : Bus → Bus
  stop_timer b = record b { flush_timer = false }

  abbrev flush_queue : List Row → Bus → Bus
  flush_queue [] b = b
  flush_queue (r ∷ rs) b = insert_rows (answer (r ∷ rs)) b

  unfoldable pub flush_events : Bus → Bus
  flush_events b = flush_queue b.event_queue (stop_timer b)

  -- The queue is flushed if it is full; otherwise there is a timer.
  unfoldable pub enqueue : Row → Bus → Bus
  unfolding flush_events
  enqueue row b =
      let queued = record b { event_queue = b.event_queue ++ row ∷ [] } in
      if leb batch_size (length queued.event_queue)
      then flush_events queued
      else record queued { flush_timer = true }

module _ (throws : String → Event → Bool) where
  abbrev pub notify_local : Event → Bus → Bus
  notify_local e b = record b { calls = b.calls ++ notify throws e b.handlers }

  -- What `initializeRealtimeSubscription` does with a row that the database reports.
  unfoldable pub receive : Event → Bus → Bus
  receive e b = if is_processed e.id b then b else notify_local e (remember e.id b)

module _ (answer : List Row → Answer) (throws : String → Event → Bool) where
  unfoldable pub publish : Event → Bus → Bus
  unfolding cleanup enqueue
  publish e b =
      if is_processed e.id b
      then b
      else notify_local throws e (enqueue answer (row_of e) (cleanup (remember e.id b)))

  unfoldable pub operate : Operation → Bus → Bus
  operate (publish_call e) b = publish e b
  operate (row_received e) b = receive throws e b
  operate timer_fired b = if b.flush_timer then flush_events answer b else b
  operate (subscribe_call t h) b = record b { handlers = subscribe t h b.handlers }
  operate (unsubscribe_call t h) b = record b { handlers = unsubscribe t h b.handlers }

  unfoldable pub operate_all : List Operation → Bus → Bus
  unfolding operate
  operate_all [] b = b
  operate_all (o ∷ os) b = operate_all os (operate o b)
