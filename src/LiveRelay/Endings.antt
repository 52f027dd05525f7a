-- ===== src/LiveRelay/Endings.antt =====
-- Which sessions with the model are ended with the connection.
use dreamweaver.Prelude.{
  ℕ, zero, suc, String, Option, none, some, false, List, [], ◌∷◌, ◌++◌, ◌≡◌, refl, ◌∙◌, sym, ap,
  arith, All,
}
use dreamweaver.LiveRelay.{
  Connection, Happening, audio_received, text_received, session_started, start_failed, audio_spoken,
  text_spoken, spoken_interrupted, error_reported, cue_published, SleepPayload, session_closed,
  client_closed, connected, happen, happen_all, hear_cue, sleep_handler, start, receive_audio,
  receive_text, close_session, leave, disconnect,
}

-- The session that started last, if any.
abbrev pub newest_session : ℕ → Option ℕ
newest_session zero = none
newest_session (suc n) = some n

abbrev pub only : Option ℕ → List ℕ
only none = []
only (some n) = n ∷ []

module _ (user_id : Option String) (pacing : String) where
  -- The fields that tell which sessions there are and which were ended.
  abbrev Same : Connection → Connection → Type 0
  Same c c' =
      (c'.live_session ≡ c.live_session)
      × (c'.started ≡ c.started)
      × (c'.disconnected ≡ c.disconnected)

  sleep_handler-Same :
      (p : SleepPayload) (c : Connection) → Same c (sleep_handler user_id pacing p c)
  unfolding sleep_handler
  sleep_handler-Same p c = ground arith

  hear_cue-Same :
      (p : SleepPayload) (ns : List ℕ) (c : Connection) → Same c (hear_cue user_id pacing p ns c)
  unfolding hear_cue
  hear_cue-Same p [] c = (refl, refl, refl)
  hear_cue-Same p (n ∷ ns) c =
      let one = sleep_handler-Same p c in
      let rest = hear_cue-Same p ns (sleep_handler user_id pacing p c) in
      (rest.0 ∙ one.0, rest.1 ∙ one.1, rest.2 ∙ one.2)

  -- What happens, but for the closing of the client's socket.
  abbrev pub Stays : Happening → Type 0
  Stays client_closed = ⊥
  Stays (audio_received chunk) = Unit {0}
  Stays (text_received m) = Unit {0}
  Stays session_started = Unit {0}
  Stays (start_failed message) = Unit {0}
  Stays (audio_spoken chunk) = Unit {0}
  Stays (text_spoken text) = Unit {0}
  Stays spoken_interrupted = Unit {0}
  Stays error_reported = Unit {0}
  Stays (cue_published p) = Unit {0}
  Stays (session_closed n code) = Unit {0}

  happen-live :
      (h : Happening) (c : Connection)
      → Stays h
      → c.live_session ≡ newest_session c.started
      → (happen user_id pacing h c).live_session
        ≡ newest_session (happen user_id pacing h c).started
  unfolding happen receive_audio receive_text start close_session
  happen-live (audio_received chunk) c stays k = ground (arith, k)
  happen-live (text_received m) c stays k = ground (arith, k)
  happen-live session_started c stays k = refl
  happen-live (start_failed message) c stays k = k
  happen-live (audio_spoken chunk) c stays k = k
  happen-live (text_spoken text) c stays k = k
  happen-live spoken_interrupted c stays k = k
  happen-live error_reported c stays k = k
  happen-live (cue_published p) c stays k =
      let same = hear_cue-Same p c.subscriptions c in same.0 ∙ k ∙ ap newest_session (sym same.1)
  happen-live (session_closed n code) c stays k = ground (arith, k)
  happen-live client_closed c stays k = absurd stays

  happen-disconnected :
      (h : Happening) (c : Connection)
      → Stays h
      → (happen user_id pacing h c).disconnected ≡ c.disconnected
  unfolding happen receive_audio receive_text start close_session
  happen-disconnected (audio_received chunk) c stays = ground arith
  happen-disconnected (text_received m) c stays = ground arith
  happen-disconnected session_started c stays = refl
  happen-disconnected (start_failed message) c stays = refl
  happen-disconnected (audio_spoken chunk) c stays = refl
  happen-disconnected (text_spoken text) c stays = refl
  happen-disconnected spoken_interrupted c stays = refl
  happen-disconnected error_reported c stays = refl
  happen-disconnected (cue_published p) c stays = (hear_cue-Same p c.subscriptions c).2
  happen-disconnected (session_closed n code) c stays = ground arith
  happen-disconnected client_closed c stays = absurd stays

  happen_all-live :
      (hs : List Happening) (c : Connection)
      → All Stays hs
      → c.live_session ≡ newest_session c.started
      → (happen_all user_id pacing hs c).live_session
        ≡ newest_session (happen_all user_id pacing hs c).started
  unfolding happen_all
  happen_all-live [] c stays k = k
  happen_all-live (h ∷ hs) c (one, stays) k =
      happen_all-live hs (happen user_id pacing h c) stays (happen-live h c one k)

  happen_all-disconnected :
      (hs : List Happening) (c : Connection)
      → All Stays hs
      → (happen_all user_id pacing hs c).disconnected ≡ c.disconnected
  unfolding happen_all
  happen_all-disconnected [] c stays = refl
  happen_all-disconnected (h ∷ hs) c (one, stays) =
      happen_all-disconnected hs (happen user_id pacing h c) stays ∙ happen-disconnected h c one

  disconnect-only :
      (o : Option ℕ) (c : Connection) → c.disconnected ≡ [] → (disconnect o c).disconnected ≡ only o
  disconnect-only none c e = e
  disconnect-only (some n) c e = ap (λ (l : List ℕ). l ++ n ∷ []) e

  leave-disconnected :
      (c : Connection)
      → c.live_session ≡ newest_session c.started
      → c.disconnected ≡ []
      → (leave c).disconnected ≡ only (newest_session c.started)
  unfolding leave
  leave-disconnected c k e =
      disconnect-only c.live_session (record c { client_open = false }) e ∙ ap only k

  -- When a client leaves, the session with the model that started last is disconnected, and no other
  -- one ever is: not those that started before it, and not one that starts only after the client has
  -- left.
  pub only_newest_disconnected :
      (id : String) (before after : List Happening)
      → All Stays before
      → All Stays after
      → (happen_all user_id pacing after (
          happen user_id pacing client_closed
            (happen_all user_id pacing before (connected id)))).disconnected
        ≡ only (newest_session (happen_all user_id pacing before (connected id)).started)
  unfolding happen
  only_newest_disconnected id before after first then_on =
      let c = happen_all user_id pacing before (connected id) in
      happen_all-disconnected after (leave c) then_on
      ∙ leave-disconnected c (happen_all-live before (connected id) first refl)
          (happen_all-disconnected before (connected id) first)
