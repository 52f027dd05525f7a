-- ===== src/Worker.antt =====
-- The relay between a client and Gemini (ws-worker/src/index.ts): the checks of a request, and what
-- happens to the messages of the client once they are brought into the form that is sent on. How a
-- binary message is wrapped, and a setup message normalised, is left out.
pub mod Order
use Prim.Native.String
use dreamweaver.Prelude.{
  ℕ, zero, suc, ◌+◌, ◌-◌, ◌*◌, String, Option, none, some, Bool, true, false, not, ◌&&◌, ◌||◌, List,
  [], ◌∷◌, ◌++◌, any, length, ltb, str_eq, to_lower, trim, truthy, is_some, if◌then◌else◌,
}
use dreamweaver.Generation.Texts.{after}
use dreamweaver.Session.Store.{shift}

-- `s.split(',')`
unfoldable pub split_commas : String → List String
split_commas String.[] = "" ∷ []
split_commas (String.◌∷◌ c s) =
    let rest = split_commas s in
    if str_eq (String.◌∷◌ c String.[]) ","
    then "" ∷ rest
    else elim rest [ [] ↦ String.◌∷◌ c String.[] ∷ [] | p ∷ ps ↦ String.◌∷◌ c p ∷ ps ]

-- `.map((s) => s.trim()).filter(Boolean)`
abbrev trimmed_parts : List String → List String
trimmed_parts [] = []
trimmed_parts (p ∷ ps) =
    let rest = trimmed_parts ps in if str_eq (trim p) "" then rest else trim p ∷ rest

unfoldable pub parse_allowed_origins : Option String → List String
unfolding split_commas
parse_allowed_origins none = []
parse_allowed_origins (some raw) = trimmed_parts (split_commas raw)

-- The rest of the first part that starts with `ticket.`.
abbrev first_ticket : List String → Option String
first_ticket [] = none
first_ticket (p ∷ ps) = elim (after "ticket." (trim p)) [ none ↦ first_ticket ps | some t ↦ some t ]

unfoldable pub parse_ticket_from_protocols : Option String → Option String
unfolding split_commas
parse_ticket_from_protocols none = none
parse_ticket_from_protocols (some header) = truthy (first_ticket (split_commas header))

-- The answer to a request: a status, and the user if the connection is made.
pub data Opening : Type 0 where
  refused : (status : ℕ) → Opening
  accepted : (user_id : String) → Opening

abbrev admit : Option String → Opening
admit none = refused 403
admit (some user) = accepted user

abbrev with_ticket : (String → Option String) → Option String → Opening
with_ticket consume none = refused 401
with_ticket consume (some ticket) = admit (truthy (consume ticket))

abbrev is_allowed : List String → Option String → Bool
is_allowed origins none = false
is_allowed origins (some origin) = any (str_eq origin) origins

abbrev has_origins : List String → Bool
has_origins [] = false
has_origins (o ∷ os) = true

abbrev is_websocket : Option String → Bool
is_websocket none = false
is_websocket (some header) = str_eq (to_lower header) "websocket"

-- The first part of `handleLiveWebSocket`. The API consumes the ticket and gives its user.
unfoldable pub open_connection :
    (consume : String → Option String)
    → (allowed_origins upgrade origin protocols : Option String) → Opening
unfolding parse_allowed_origins parse_ticket_from_protocols
open_connection consume allowed_origins upgrade origin protocols =
    let origins = parse_allowed_origins allowed_origins in
    if not (is_websocket upgrade)
    then refused 426
    else if has_origins origins && not (is_allowed origins origin)
    then refused 403
    else with_ticket consume (parse_ticket_from_protocols protocols)

-- A message as it is sent on: its text has `size` characters.
pub record Message : Type 0 where
  pub text : String
  pub size : ℕ
  pub is_realtime_audio : Bool

-- The variables of a connection, what Gemini and the client were sent, and with which codes the
-- sockets were closed by the relay.
pub record Relay : Type 0 where
  pub is_closing : Bool
  pub gemini_open : Bool
  pub audio_buffer_queue : List Message
  pub text_window_start : ℕ
  pub text_count : ℕ
  pub to_gemini : List Message
  pub to_client : List String
  pub server_closed : List ℕ
  pub gemini_closed : List ℕ

abbrev pub opened : ℕ → Relay
opened now = record {
  is_closing = false;
  gemini_open = false;
  audio_buffer_queue = [];
  text_window_start = now;
  text_count = 0;
  to_gemini = [];
  to_client = [];
  server_closed = [];
  gemini_closed = [];
}

abbrev code_or_normal : ℕ → ℕ
code_or_normal zero = 1000
code_or_normal (suc n) = suc n

unfoldable pub safe_close : ℕ → Relay → Relay
safe_close code c = if c.is_closing then c else (record c {
  is_closing = true;
  server_closed = c.server_closed ++ code_or_normal code ∷ [];
  gemini_closed = c.gemini_closed ++ code_or_normal code ∷ [];
})

abbrev close_server : ℕ → Relay → Relay
close_server code c = record c { server_closed = c.server_closed ++ code ∷ [] }

-- Gemini's socket opens: what waits is sent.
unfoldable pub gemini_opens : Relay → Relay
gemini_opens c = record c {
  gemini_open = true;
  to_gemini = c.to_gemini ++ c.audio_buffer_queue;
  audio_buffer_queue = [];
}

-- A message is sent, or waits; of the waiting ones the newest 50 are kept.
unfoldable pub send_on : Message → Relay → Relay
send_on m c =
    if c.gemini_open
    then record c { to_gemini = c.to_gemini ++ m ∷ [] }
    else let queue = c.audio_buffer_queue ++ m ∷ [] in
      record c { audio_buffer_queue = if ltb 50 (length queue) then shift queue else queue }

-- The count of the texts in a minute.
unfoldable pub count_text : ℕ → Relay → Relay
count_text now c =
    if ltb 60000 (now - c.text_window_start)
    then record c { text_window_start = now; text_count = 1 }
    else record c { text_count = c.text_count + 1 }

abbrev limit_text : Message → Relay → Relay
limit_text m c = if ltb 120 c.text_count then close_server 1008 c else send_on m c

-- The listener for the messages of the client.
unfoldable pub client_says : ℕ → Message → Relay → Relay
unfolding count_text send_on
client_says now m c =
    if c.is_closing
    then c
    else if ltb (64 * 1024) m.size
    then close_server 1009 c
    else if m.is_realtime_audio
    then send_on m c
    else limit_text m (count_text now c)

-- The listener for the messages of Gemini.
unfoldable pub gemini_says : String → Relay → Relay
gemini_says text c = if c.is_closing then c else record c { to_client = c.to_client ++ text ∷ [] }
