-- ===== src/LiveRelay.antt =====
-- A client of the live relay of the API (api/src/infrastructure/services/GeminiLiveRelay.ts): what
-- happens to its connection, and the sessions that it starts with the model. A session is known by
-- its number, in the order in which `startLiveSession` returned. The checks of the intent and of the
-- interruption only log.
pub mod Endings
pub mod Cues
pub mod Upstream
pub mod Sounds
use dreamweaver.Prelude.{
  ℕ, zero, suc, ◌+◌, String, Option, none, some, Bool, true, false, not, ◌&&◌, ◌||◌, List, [], ◌∷◌,
  ◌++◌, map, length, ltb, ◌==◌, str_eq, truthy, is_some, remove, if◌then◌else◌,
}
use dreamweaver.Session.Store.{shift}

-- What a session with the model is sent.
pub data Input : Type 0 where
  sound : (chunk : String) → Input
  words : (text : String) → Input
  tool_response : (response : String) → Input

-- What the client is sent.
pub data Output : Type 0 where
  speech : (chunk : String) → Output
  model_text : (text : String) → Output
  interruption : Output
  sleep_detection : (confidence : ℕ) (cue : Option String) → Output
  error_message : (message : String) → Output

-- The variables of `handleConnection`; what the sessions and the client were sent, with which codes
-- the client's socket was closed, and which sessions were disconnected and analysed.
pub record Connection : Type 0 where
  pub session_id : String
  pub is_session_active : Bool
  pub live_session : Option ℕ
  pub started : ℕ
  pub audio_buffer_queue : List String
  pub upstream : List (ℕ × Input)
  pub subscriptions : List ℕ
  pub client_open : Bool
  pub to_client : List Output
  pub closed : List ℕ
  pub disconnected : List ℕ
  pub analysed : List (String × String)

-- `live_${Date.now()}_${userId || 'anon'}` is the first identifier.
abbrev pub connected : String → Connection
connected session_id = record {
  session_id = session_id;
  is_session_active = false;
  live_session = none;
  started = 0;
  audio_buffer_queue = [];
  upstream = [];
  subscriptions = [];
  client_open = true;
  to_client = [];
  closed = [];
  disconnected = [];
  analysed = [];
}

-- A text message of the client: whether it has a setup, and the other fields that are read.
pub record ClientMessage : Type 0 where
  pub has_setup : Bool
  pub session_id : Option String
  pub text : Option String
  pub tool_response : Option String

-- The payload of a sleep cue.
pub record SleepPayload : Type 0 where
  pub session_id : String
  pub user_id : Option String
  pub confidence : ℕ
  pub cue : Option String

pub data Happening : Type 0 where
  audio_received : (chunk : String) → Happening
  text_received : ClientMessage → Happening
  session_started : Happening
  start_failed : (message : String) → Happening
  audio_spoken : (chunk : String) → Happening
  text_spoken : (text : String) → Happening
  spoken_interrupted : Happening
  error_reported : Happening
  cue_published : SleepPayload → Happening
  session_closed : (session code : ℕ) → Happening
  client_closed : Happening

-- `if (clientWs.readyState === WebSocket.OPEN) clientWs.send(…)`
abbrev pub send_client : Output → Connection → Connection
send_client o c = record c { to_client = c.to_client ++ (if c.client_open then o ∷ [] else []) }

abbrev close_client : ℕ → Connection → Connection
close_client code c = record c { client_open = false; closed = c.closed ++ code ∷ [] }

abbrev pub send_session : Input → Option ℕ → Connection → Connection
send_session i none c = c
send_session i (some n) c = record c { upstream = c.upstream ++ (n, i) ∷ [] }

abbrev pub to_session : ℕ → List String → List (ℕ × Input)
to_session n chunks = map (λ chunk. (n, sound chunk)) chunks

-- `startSession`, when the session is there: the handlers, and the sound that waited.
unfoldable pub start : Connection → Connection
start c = record c {
  is_session_active = true;
  live_session = some c.started;
  started = suc c.started;
  subscriptions = c.subscriptions ++ c.started ∷ [];
  upstream = c.upstream ++ to_session c.started c.audio_buffer_queue;
  audio_buffer_queue = [];
}

-- Sound of the client.
unfoldable pub receive_audio : String → Connection → Connection
receive_audio chunk c =
    if c.is_session_active && is_some c.live_session
    then send_session (sound chunk) c.live_session c
    else let queue = c.audio_buffer_queue ++ chunk ∷ [] in
      record c { audio_buffer_queue = if ltb 50 (length queue) then shift queue else queue }

abbrev rename_session : Option String → Connection → Connection
rename_session none c = c
rename_session (some id) c = record c { session_id = id }

abbrev send_words : Option String → Connection → Connection
send_words none c = c
send_words (some text) c = send_session (words text) c.live_session c

abbrev send_response : Option String → Connection → Connection
send_response none c = c
send_response (some r) c = send_session (tool_response r) c.live_session c

-- A text message: a setup before there is a session, or texts and responses afterwards. That a setup
-- asks for a session is a happening of its own, when the session is there.
unfoldable pub receive_text : ClientMessage → Connection → Connection
receive_text m c =
    if m.has_setup && not c.is_session_active
    then rename_session (truthy m.session_id) c
    else if not c.is_session_active
    then c
    else send_response m.tool_response (send_words (truthy m.text) c)

abbrev pub same_user : Option String → Option String → Bool
same_user none none = true
same_user none (some v) = false
same_user (some u) none = false
same_user (some u) (some v) = str_eq u v

abbrev pub is_for : Option String → SleepPayload → Connection → Bool
is_for user p c = str_eq p.session_id c.session_id && same_user p.user_id user

abbrev pub analyse : Option String → Connection → Connection
analyse none c = c
analyse (some user) c = record c { analysed = c.analysed ++ (c.session_id, user) ∷ [] }

module _ (user_id : Option String) (pacing : String) where
  -- `sleepHandler`
  unfoldable pub sleep_handler : SleepPayload → Connection → Connection
  sleep_handler p c =
      if is_for user_id p c && c.client_open
      then analyse (truthy user_id) (
          send_session (words pacing) c.live_session
            (record c { to_client = c.to_client ++ sleep_detection p.confidence p.cue ∷ [] }))
      else c

  -- Each session subscribed its handler.
  unfoldable pub hear_cue : SleepPayload → List ℕ → Connection → Connection
  unfolding sleep_handler
  hear_cue p [] c = c
  hear_cue p (n ∷ ns) c = hear_cue p ns (sleep_handler p c)

abbrev unsubscribe_session : ℕ → List ℕ → List ℕ
unsubscribe_session n [] = []
unsubscribe_session n (m ∷ ms) =
    let rest = unsubscribe_session n ms in if n == m then rest else m ∷ rest

abbrev is_failure : ℕ → Bool
is_failure code = not (code == 0 || (code == 1000 || code == 1005))

abbrev pub tell_close : ℕ → Connection → Connection
tell_close code c = if is_failure code then send_client (error_message "Upstream Closed") c else c

-- `onClose` of a session; the code 0 is a missing one.
unfoldable pub close_session : (n code : ℕ) → Connection → Connection
close_session n code c =
    let told = tell_close code c in
    close_client 1000 (record told { subscriptions = unsubscribe_session n told.subscriptions })

abbrev pub disconnect : Option ℕ → Connection → Connection
disconnect none c = c
disconnect (some n) c = record c { disconnected = c.disconnected ++ n ∷ [] }

-- The client's socket closes or fails.
unfoldable pub leave : Connection → Connection
leave c = disconnect c.live_session (record c { client_open = false })

module _ (user_id : Option String) (pacing : String) where
  unfoldable pub happen : Happening → Connection → Connection
  unfolding start receive_audio receive_text hear_cue close_session leave
  happen (audio_received chunk) c = receive_audio chunk c
  happen (text_received m) c = receive_text m c
  happen session_started c = start c
  happen (start_failed message) c = close_client 1011 (send_client (error_message message) c)
  happen (audio_spoken chunk) c = send_client (speech chunk) c
  happen (text_spoken text) c = send_client (model_text text) c
  happen spoken_interrupted c = send_client interruption c
  happen error_reported c = send_client (error_message "Google API Error") c
  happen (cue_published p) c = hear_cue user_id pacing p c.subscriptions c
  happen (session_closed n code) c = close_session n code c
  happen client_closed c = leave c

  unfoldable pub happen_all : List Happening → Connection → Connection
  unfolding happen
  happen_all [] c = c
  happen_all (h ∷ hs) c = happen_all hs (happen h c)
