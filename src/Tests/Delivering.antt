-- ===== src/Tests/Delivering.antt =====
-- The event bus, the sleep sentinel, the relay, the guardian, the intents, the voices and the
-- authentication at concrete inputs.
use dreamweaver.Prelude.{
  ℕ, zero, suc, ◌<◌, String, Option, none, some, Bool, true, false, List, [], ◌∷◌, ◌++◌, ◌≡◌, ◌≢◌,
  ◌⊎◌, refl, map, length, str_eq, arith,
}
use dreamweaver.Events.{Event}
use dreamweaver.Events.Bus.{
  Bus, Row, Answer, written, duplicate_key, Operation, publish_call, row_received, timer_fired,
  subscribe_call, operate, operate_all, publish, opened, row_of,
}
use dreamweaver.Events.Written.{published, all_written}
use dreamweaver.Events.Refused.{refused_batch_lost}
use dreamweaver.Sentinel.{Sentinel, Chunk, Breathing, fresh}
use dreamweaver.Sentinel.Runs.{Happening, heard, interrupted}
use dreamweaver.Sentinel.Cues.{hear_all, hear_at_once, Spaced, hear_all-Spaced, hear_at_once-length}
use dreamweaver.Worker.{Message, opened as connected, gemini_opens}
use dreamweaver.Worker.Order.{says_all, newest, messages, relayed_in_order}
use dreamweaver.Generation.Texts.{after}
use dreamweaver.Auth.{Environment, Verdict, User, known, auth_middleware, bearer_token, demo_user}
use dreamweaver.Auth.Users.{passed_is_known}
use dreamweaver.Voice.{VoiceProfile}

abbrev beat : ℕ → String → Event
beat at id = record {
  id = id;
  request_id = "r";
  trace_id = none;
  type = "STORY_BEAT_COMPLETED";
  payload = ("userId", "u") ∷ [];
  timestamp = at;
}

abbrev throws : String → Event → Bool
throws handler e = str_eq handler "broken"

abbrev writes : List Row → Answer
writes rows = written

abbrev refuses : List Row → Answer
refuses rows = duplicate_key

abbrev listening : Bus
listening = record (opened []) {
  handlers = ("STORY_BEAT_COMPLETED", "broken" ∷ "conductor" ∷ []) ∷ [];
}

abbrev again : List Operation
again = publish_call (beat 5 "e1") ∷ row_received (beat 5 "e1") ∷ timer_fired ∷ []

abbrev calls : List Operation
calls =
    subscribe_call "STORY_BEAT_COMPLETED" "conductor"
    ∷ row_received (beat 4 "e0")
    ∷ publish_call (beat 5 "e1")
    ∷ publish_call (beat 6 "e2")
    ∷ row_received (beat 5 "e1")
    ∷ []

all_written_example :
    let b = operate_all writes throws calls (opened []) in
    (b.table ++ b.event_queue ≡ [] ++ map row_of (published calls))
    × (length b.event_queue < 25)
    × ((operate writes throws timer_fired b).table ≡ [] ++ map row_of (published calls))
all_written_example = all_written writes throws (λ rows. refl) calls [] (refl, (refl, tt))

abbrev waiting : ℕ → List Row
waiting zero = []
waiting (suc n) = row_of (beat n "old") ∷ waiting n

abbrev full : Bus
full = record (opened []) { event_queue = waiting 24 }

refused_batch_lost_example :
    let b' = publish refuses throws (beat 5 "e1") full in
    (b'.table ≡ full.table) × (b'.event_queue ≡ []) × (publish refuses throws (beat 5 "e1") b' ≡ b')
refused_batch_lost_example =
    refused_batch_lost refuses throws (beat 5 "e1") full refl refl (λ e. ground (arith, e))

abbrev calm : List ℕ → ℕ → Breathing
calm rms samples = record { is_stable = true; frequency_hz = some 2500; strength = some 9000 }

abbrev hush : ℕ → Chunk
hush samples = record { samples = samples; rms = 10; variance = 10 }

abbrev drowsy : Sentinel
drowsy = record fresh { confidence = 8600 }

abbrev minute : List (ℕ × Chunk)
minute = (40000, hush 320) ∷ (40020, hush 320) ∷ (71000, hush 320) ∷ []

hear_all-Spaced_example : Spaced calm drowsy.last_cue_at_ms (hear_all calm minute drowsy)
hear_all-Spaced_example = hear_all-Spaced calm minute drowsy

hear_at_once-length_example : length (hear_at_once calm minute drowsy) ≡ length minute
hear_at_once-length_example =
    hear_at_once-length calm minute drowsy (omega arith)
      ((omega arith, omega arith), ((omega arith, omega arith), ((omega arith, omega arith), tt)))

abbrev slow : List Happening
slow = heard 1 (hush 1600) ∷ interrupted ∷ heard 101 (hush 1600) ∷ []

abbrev word : String → Message
word t = record { text = t; size = 20; is_realtime_audio = false }

abbrev before : List (ℕ × Message)
before = (5, word "setup") ∷ (6, word "hello") ∷ []

abbrev afterwards : List (ℕ × Message)
afterwards = (9, word "goodnight") ∷ []

relayed_in_order_example :
    (says_all afterwards (gemini_opens (says_all before (connected 0)))).to_gemini
    ≡ newest 50 (messages before) ++ messages afterwards
relayed_in_order_example =
    relayed_in_order 0 before afterwards
      ((omega arith, omega arith), ((omega arith, omega arith), tt))
      ((omega arith, omega arith), tt) (omega arith)

abbrev production : Environment
production = record {
  is_production = true;
  load_test_auth = true;
  process_url = some "https://db";
  process_key = some "key";
  context_url = none;
  context_key = none;
  config_url = none;
  config_key = none;
}

abbrev ada : User
ada = record { id = "ada"; email = none; role = none }

abbrev get_user : String → Verdict
get_user token = known ada

abbrev demo_header : Option String
demo_header = none

passed_is_known_example :
    (token : String) × (bearer_token (some "Bearer t1") ≡ some token)
    × (((demo_header ≢ some "true") × (get_user token ≡ known ada) × (some "t1" ≡ some token))
        ⊎ ((demo_header ≡ some "true")
            × (ada ≡ demo_user)
            × (◌≡◌ {A = Option String} (some "t1") none)))
unfolding auth_middleware after
passed_is_known_example =
    passed_is_known production get_user (some "Bearer t1") demo_header ada (some "t1") refl refl

abbrev lost : String → String → Option String
lost path mime = none

abbrev keeps : VoiceProfile → Bool
keeps p = true
