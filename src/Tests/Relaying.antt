-- ===== src/Tests/Relaying.antt =====
-- The live relay of the API (api/src/infrastructure/services/GeminiLiveRelay.ts) with concrete
-- clients.
use dreamweaver.Prelude.{String, Option, none, some, true, false, List, [], ◌∷◌, ◌++◌, ◌≡◌}
use dreamweaver.Worker.Order.{newest}
use dreamweaver.LiveRelay.{
  Connection, ClientMessage, SleepPayload, Happening, text_received, audio_received,
  session_started, client_closed, cue_published, session_closed, connected, happen, happen_all,
}
use dreamweaver.LiveRelay.Endings.{only, newest_session, only_newest_disconnected}
use dreamweaver.LiveRelay.Sounds.{chunks, sounds_in_order}
use dreamweaver.LiveRelay.Upstream.{sent_sounds, numbered}

abbrev setup : ClientMessage
setup = record { has_setup = true; session_id = some "s"; text = none; tool_response = none }

-- Two setups, before the first session has started.
abbrev twice : List Happening
twice =
    text_received setup
    ∷ text_received setup
    ∷ session_started
    ∷ audio_received "a"
    ∷ session_started
    ∷ []

abbrev too_late : List Happening
too_late = session_started ∷ []

abbrev user : Option String
user = some "u"

only_newest_disconnected_example :
    (happen_all user "slower" too_late (
      happen user "slower" client_closed
        (happen_all user "slower" twice (connected "live_1_u")))).disconnected
    ≡ only (newest_session (happen_all user "slower" twice (connected "live_1_u")).started)
only_newest_disconnected_example =
    only_newest_disconnected user "slower" "live_1_u" twice too_late
      (tt, (tt, (tt, (tt, (tt, tt))))) (tt, tt)

abbrev listening : Connection
listening = record (connected "s") {
  is_session_active = true;
  live_session = some 0;
  started = 1;
  subscriptions = 0 ∷ [];
}

abbrev yawn : SleepPayload
yawn = record { session_id = "s"; user_id = some "u"; confidence = 86; cue = some "silence" }

-- The client says two things before its session starts.
abbrev early : List Happening
early = audio_received "a" ∷ text_received setup ∷ audio_received "ah" ∷ []

-- The session is sent words as well, is closed, and the client goes on.
abbrev late : List Happening
late =
    text_received
      (record { has_setup = false; session_id = none; text = some "hi"; tool_response = none })
    ∷ cue_published yawn
    ∷ audio_received "b"
    ∷ session_closed 0 1006
    ∷ audio_received "c"
    ∷ []

sounds_in_order_example :
    sent_sounds
      (happen_all user "slower" late (
        happen user "slower" session_started
          (happen_all user "slower" early (connected "s")))).upstream
    ≡ numbered 0 (newest 50 (chunks early) ++ chunks late)
sounds_in_order_example =
    sounds_in_order user "slower" "s" early late (tt, (tt, (tt, tt)))
      (tt, (tt, (tt, (tt, (tt, tt)))))
