-- ===== src/LiveRelay/Sounds.antt =====
-- In which order a session gets the sound of the client.
use mathlib.Core.List.{append_assoc, append-nil}
use dreamweaver.Prelude.{
  ℕ, String, Option, none, some, true, false, List, [], ◌∷◌, ◌++◌, All, ◌≡◌, refl, ◌∙◌, sym, ap,
  arith, truthy, Bool-cases, inl, inr, ◌&&◌,
}
use dreamweaver.Worker.Order.{newest, newest-snoc}
use dreamweaver.LiveRelay.{
  sound, words, Connection, SleepPayload, Happening, audio_received, text_received, session_started,
  start_failed, audio_spoken, text_spoken, spoken_interrupted, error_reported, cue_published,
  session_closed, client_closed, connected, happen, happen_all, to_session, start, receive_audio,
  send_session, sleep_handler, hear_cue, is_for, leave, Output, speech, model_text, interruption,
  error_message, sleep_detection, send_client,
}
use dreamweaver.LiveRelay.Upstream.{
  Same, same, Same-trans, sent_sounds, sent_sounds-append, sent_sounds-to_session, numbered,
  numbered-append, send_session-Same, receive_text-Same, analyse-Same, disconnect-Same,
  close_session-Same,
}

-- The sound that the client sends.
abbrev pub chunks : List Happening → List String
chunks [] = []
chunks (audio_received chunk ∷ hs) = chunk ∷ chunks hs
chunks (text_received m ∷ hs) = chunks hs
chunks (session_started ∷ hs) = chunks hs
chunks (start_failed message ∷ hs) = chunks hs
chunks (audio_spoken chunk ∷ hs) = chunks hs
chunks (text_spoken text ∷ hs) = chunks hs
chunks (spoken_interrupted ∷ hs) = chunks hs
chunks (error_reported ∷ hs) = chunks hs
chunks (cue_published p ∷ hs) = chunks hs
chunks (session_closed n code ∷ hs) = chunks hs
chunks (client_closed ∷ hs) = chunks hs

-- What happens, but for the start of a session.
abbrev pub StartsNone : Happening → Type 0
StartsNone session_started = ⊥
StartsNone (audio_received chunk) = Unit {0}
StartsNone (text_received m) = Unit {0}
StartsNone (start_failed message) = Unit {0}
StartsNone (audio_spoken chunk) = Unit {0}
StartsNone (text_spoken text) = Unit {0}
StartsNone spoken_interrupted = Unit {0}
StartsNone error_reported = Unit {0}
StartsNone (cue_published p) = Unit {0}
StartsNone (session_closed n code) = Unit {0}
StartsNone client_closed = Unit {0}

-- No session has started: the newest fifty of the chunks `waiting` wait.
record IsIdle (waiting : List String) (c : Connection) : Type 0 where
  active : c.is_session_active ≡ false
  live : c.live_session ≡ none
  count : c.started ≡ 0
  queue : c.audio_buffer_queue ≡ newest 50 waiting
  sent : sent_sounds c.upstream ≡ []

-- The session `n` is the newest, and `sounds` is what was sent.
record IsLive (n : ℕ) (sounds : List String) (c : Connection) : Type 0 where
  active : c.is_session_active ≡ true
  live : c.live_session ≡ some n
  sent : sent_sounds c.upstream ≡ numbered n sounds

IsIdle-Same : (w : List String) (c c' : Connection) → Same c c' → IsIdle w c → IsIdle w c'
IsIdle-Same w c c' s k = record {
  active = s.active ∙ k.active;
  live = s.live ∙ k.live;
  count = s.count ∙ k.count;
  queue = s.queue ∙ k.queue;
  sent = s.sent ∙ k.sent;
}

IsLive-Same :
    (n : ℕ) (w : List String) (c c' : Connection) → Same c c' → IsLive n w c → IsLive n w c'
IsLive-Same n w c c' s k = record {
  active = s.active ∙ k.active;
  live = s.live ∙ k.live;
  sent = s.sent ∙ k.sent;
}

receive_audio-IsIdle :
    (s : String) (waiting : List String) (c : Connection)
    → IsIdle waiting c
    → IsIdle (waiting ++ s ∷ []) (receive_audio s c)
unfolding receive_audio
receive_audio-IsIdle s waiting c k = record {
  active = ground (arith, k.active);
  live = ground (arith, k.active, k.live);
  count = ground (arith, k.active, k.count);
  queue = rw (k.active, k.queue) (newest-snoc 50 waiting s);
  sent = rw k.active k.sent;
}

receive_audio-IsLive :
    (n : ℕ) (s : String) (sounds : List String) (c : Connection)
    → IsLive n sounds c
    → IsLive n (sounds ++ s ∷ []) (receive_audio s c)
unfolding receive_audio
receive_audio-IsLive n s sounds c k = record {
  active = rw (k.active, k.live) refl;
  live = rw (k.active, k.live) refl;
  sent =
      rw (k.active, k.live)
        (sent_sounds-append c.upstream ((n, sound s) ∷ [])
          ∙ rw k.sent (sym (numbered-append n sounds (s ∷ []))));
}

start-IsLive :
    (waiting : List String) (c : Connection)
    → IsIdle waiting c
    → IsLive 0 (newest 50 waiting) (start c)
unfolding start
start-IsLive waiting c k = record {
  active = refl;
  live = ap some k.count;
  sent =
      sent_sounds-append c.upstream (to_session c.started c.audio_buffer_queue)
      ∙ rw (k.sent, k.count, k.queue) (sent_sounds-to_session 0 (newest 50 waiting));
}

module _ (user_id : Option String) (pacing : String) where
  sleep_handler-Same :
      (p : SleepPayload) (c : Connection) → Same c (sleep_handler user_id pacing p c)
  unfolding sleep_handler
  sleep_handler-Same p c = elim (Bool-cases (is_for user_id p c && c.client_open)) [
    | inl own ↦
        let told = record c {
          to_client = c.to_client ++ sleep_detection p.confidence p.cue ∷ [];
        } in
        let sent = send_session-Same (words pacing) c.live_session told (λ n. refl) in
        rw own (
          Same-trans
            (Same-trans
              (record { active = refl; live = refl; count = refl; queue = refl; sent = refl }) sent)
            (analyse-Same (truthy user_id) (send_session (words pacing) c.live_session told)))
    | inr other ↦ rw other (same c)
  ]

  hear_cue-Same :
      (p : SleepPayload) (ns : List ℕ) (c : Connection) → Same c (hear_cue user_id pacing p ns c)
  unfolding hear_cue
  hear_cue-Same p [] c = same c
  hear_cue-Same p (n ∷ ns) c =
      Same-trans (sleep_handler-Same p c) (hear_cue-Same p ns (sleep_handler user_id pacing p c))

  told : (o : Output) (c : Connection) → Same c (send_client o c)
  told o c = record { active = refl; live = refl; count = refl; queue = refl; sent = refl }

  left : (c : Connection) → Same c (leave c)
  unfolding leave
  left c =
      Same-trans (record { active = refl; live = refl; count = refl; queue = refl; sent = refl })
        (disconnect-Same c.live_session (record c { client_open = false }))

  -- What happens, but for a start, keeps what sound of the client takes along and all else leaves.
  step :
      (P : List String → Connection → Type 0)
      → ((w : List String) (c c' : Connection) → Same c c' → P w c → P w c')
      → ((s : String) (w : List String) (c : Connection)
          → P w c
          → P (w ++ s ∷ []) (receive_audio s c))
      → (hs : List Happening) (w : List String) (c : Connection) → All StartsNone hs
      → P w c
      → P (w ++ chunks hs) (happen_all user_id pacing hs c)
  unfolding happen_all happen
  step P keeps takes [] w c _ k = rw (append-nil w) k
  step P keeps takes (audio_received s ∷ hs) w c (_, quiet) k =
      rw (← append_assoc w (s ∷ []) (chunks hs))
        (step P keeps takes hs (w ++ s ∷ []) (receive_audio s c) quiet (takes s w c k))
  step P keeps takes (session_started ∷ hs) w c (none_starts, _) k = absurd none_starts
  step P keeps takes (text_received m ∷ hs) w c (_, quiet) k =
      step P keeps takes hs w _ quiet (keeps w c _ (receive_text-Same m c) k)
  step P keeps takes (start_failed message ∷ hs) w c (_, quiet) k =
      step P keeps takes hs w _ quiet (
        keeps w c _ (record { active = refl; live = refl; count = refl; queue = refl; sent = refl })
          k)
  step P keeps takes (audio_spoken chunk ∷ hs) w c (_, quiet) k =
      step P keeps takes hs w _ quiet (keeps w c _ (told (speech chunk) c) k)
  step P keeps takes (text_spoken text ∷ hs) w c (_, quiet) k =
      step P keeps takes hs w _ quiet (keeps w c _ (told (model_text text) c) k)
  step P keeps takes (spoken_interrupted ∷ hs) w c (_, quiet) k =
      step P keeps takes hs w _ quiet (keeps w c _ (told interruption c) k)
  step P keeps takes (error_reported ∷ hs) w c (_, quiet) k =
      step P keeps takes hs w _ quiet (keeps w c _ (told (error_message "Google API Error") c) k)
  step P keeps takes (cue_published p ∷ hs) w c (_, quiet) k =
      step P keeps takes hs w _ quiet (keeps w c _ (hear_cue-Same p c.subscriptions c) k)
  step P keeps takes (session_closed n code ∷ hs) w c (_, quiet) k =
      step P keeps takes hs w _ quiet (keeps w c _ (close_session-Same n code c) k)
  step P keeps takes (client_closed ∷ hs) w c (_, quiet) k =
      step P keeps takes hs w _ quiet (keeps w c _ (left c) k)

  -- From the connection of a client to the start of a second session, whatever else happens, texts,
  -- cues and closings among it, before and after the first session starts: of the sound that the
  -- client sends, the sessions are sent the newest 50 chunks that came before the start and all that
  -- came after it, in the order in which the client sent them, each once and to this session.
  pub sounds_in_order :
      (id : String) (early late : List Happening)
      → All StartsNone early
      → All StartsNone late
      → sent_sounds
          (happen_all user_id pacing late (
            happen user_id pacing session_started
              (happen_all user_id pacing early (connected id)))).upstream
        ≡ numbered 0 (newest 50 (chunks early) ++ chunks late)
  unfolding happen
  sounds_in_order id early late first then_on =
      let c = happen_all user_id pacing early (connected id) in
      let idle : IsIdle [] (connected id) = record {
        active = refl;
        live = refl;
        count = refl;
        queue = refl;
        sent = refl;
      } in
      let waited =
        step IsIdle IsIdle-Same receive_audio-IsIdle early [] (connected id) first idle in
      (step (IsLive 0) (IsLive-Same 0) (receive_audio-IsLive 0) late (newest 50 (chunks early))
        (start c) then_on (start-IsLive (chunks early) c waited)).sent
