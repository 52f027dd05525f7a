-- ===== src/Events.antt =====
-- The event buses (api/src/application/ports/EventBusPort.ts, and InMemoryEventBus.ts and
-- SupabaseEventBus.ts of api/src/infrastructure/events). A handler is known by its name, the calls
-- of the handlers are a log, and a handler that throws is one of which `throws` is true. Of a
-- payload the entries that are texts are kept.
pub mod Bus
pub mod Queue
pub mod Recent
pub mod Once
pub mod Written
pub mod Refused
use dreamweaver.Prelude.{
  ℕ, String, Option, none, some, Bool, true, false, List, [], ◌∷◌, ◌++◌, any, add, remove, Dict,
  lookup, insert, str_eq, or_else, if◌then◌else◌,
}

pub record Event : Type 0 where
  pub id : String
  pub request_id : String
  pub trace_id : Option String
  pub type : String
  pub payload : Dict String
  pub timestamp : ℕ

-- `Map<string, Set<EventHandler>>`
abbrev pub Handlers : Type 0
Handlers = Dict (List String)

unfoldable pub subscribe : (event_type handler : String) → Handlers → Handlers
subscribe event_type handler m =
    insert event_type (add handler (or_else (lookup event_type m) [])) m

-- The function that `subscribe` returns.
unfoldable pub unsubscribe : (event_type handler : String) → Handlers → Handlers
unsubscribe event_type handler m =
    insert event_type (remove handler (or_else (lookup event_type m) [])) m

-- A call of a handler: its name, the event, and whether it threw.
pub record Call : Type 0 where
  pub handler : String
  pub event : Event
  pub threw : Bool

-- One call after the other; an exception is logged, and the next handler is called all the same.
unfoldable pub call_each : (String → Event → Bool) → Event → List String → List Call
call_each throws e [] = []
call_each throws e (h ∷ hs) =
    record { handler = h; event = e; threw = throws h e } ∷ call_each throws e hs

-- `notifyLocalSubscribers`, which is all that the volatile bus does in `publish`.
unfoldable pub notify : (String → Event → Bool) → Event → Handlers → List Call
unfolding call_each
notify throws e m = call_each throws e (or_else (lookup e.type m) [])
