-- ===== src/Worker/Order.antt =====
-- Which messages of the client reach Gemini, and in what order.
use mathlib.Core.List.{append_assoc, append-nil}
use dreamweaver.Prelude.{
  ℕ, suc, ◌+◌, ◌*◌, ◌≤◌, true, false, List, [], ◌∷◌, ◌++◌, length, length-append, All, ◌≡◌, refl,
  ◌∙◌, sym, ap, arith, ltb, if◌then◌else◌,
}
use dreamweaver.Session.Store.{shift}
use dreamweaver.Worker.{Message, Relay, opened, gemini_opens, send_on, count_text, client_says}

-- The last `n` items.
abbrev pub newest {ℓ} : {A : Type ℓ} → ℕ → List A → List A
newest n [] = []
newest n (x ∷ xs) = let rest = newest n xs in if ltb n (suc (length xs)) then rest else x ∷ xs

-- The messages of a client with their times, one after the other.
unfoldable pub says_all : List (ℕ × Message) → Relay → Relay
says_all [] c = c
says_all ((now, m) ∷ ms) c = says_all ms (client_says now m c)

abbrev pub messages : List (ℕ × Message) → List Message
messages [] = []
messages ((now, m) ∷ ms) = m ∷ messages ms

-- The number of the texts, which are not sound.
abbrev pub texts : List (ℕ × Message) → ℕ
texts [] = 0
texts ((now, m) ∷ ms) = (if m.is_realtime_audio then 0 else 1) + texts ms

-- A message of at most 64 KB in the first minute.
abbrev pub IsPlain : ℕ → ℕ × Message → Type 0
IsPlain start (now, m) = (m.size ≤ 64 * 1024) × (now ≤ start + 60000)

-- A connection that is not closing and whose minute began at `start`, after `n` texts.
record IsRunning (start n : ℕ) (c : Relay) : Type 0 where
  live : c.is_closing ≡ false
  begun : c.text_window_start ≡ start
  counted : c.text_count ≡ n

newest-short : {A : Type 0} (n : ℕ) (xs : List A) → length xs ≤ n → newest n xs ≡ xs
newest-short n [] h = refl
newest-short n (x ∷ xs) h = ground (arith, h)

-- Adding to the newest ones and dropping the oldest if they are too many.
pub newest-snoc :
    {A : Type 0} (n : ℕ) (xs : List A) (x : A)
    → (if ltb n (length (newest n xs ++ x ∷ []))
        then shift (newest n xs ++ x ∷ [])
        else newest n xs ++ x ∷ [])
      ≡ newest n (xs ++ x ∷ [])
newest-snoc n [] x = ground arith
newest-snoc n (y ∷ xs) x =
    ground (arith, newest-snoc n xs x, length-append xs (x ∷ []), newest-short n (xs ++ x ∷ []))

-- A plain message passes the checks.
client_says-plain :
    (start n now : ℕ) (m : Message) (c : Relay)
    → IsRunning start n c
    → IsPlain start (now, m)
    → n + texts ((now, m) ∷ []) ≤ 120
    → IsRunning start (n + texts ((now, m) ∷ [])) (client_says now m c)
      × ((client_says now m c).gemini_open ≡ c.gemini_open)
      × ((client_says now m c).to_gemini ≡ (send_on m c).to_gemini)
      × ((client_says now m c).audio_buffer_queue ≡ (send_on m c).audio_buffer_queue)
unfolding client_says count_text send_on
client_says-plain start n now m c i p h = ground (arith, i, p, h)

run-IsRunning :
    (start n : ℕ) (ms : List (ℕ × Message)) (c : Relay)
    → IsRunning start n c
    → All (IsPlain start) ms
    → n + texts ms ≤ 120
    → IsRunning start (n + texts ms) (says_all ms c) × ((says_all ms c).gemini_open ≡ c.gemini_open)
unfolding says_all
run-IsRunning start n [] c i p h =
    (record { live = i.live; begun = i.begun; counted = omega (arith, i.counted) }, refl)
run-IsRunning start n ((now, m) ∷ ms) c i (q, p) h =
    let next = client_says-plain start n now m c i q (omega arith) in
    let k = n + texts ((now, m) ∷ []) in
    let rest = run-IsRunning start k ms (client_says now m c) next.0 p (omega arith) in
    (
      record { live = rest.0.live; begun = rest.0.begun; counted = omega (arith, rest.0.counted) },
      rest.1 ∙ next.1,
    )

send_on-open :
    (m : Message) (c : Relay)
    → c.gemini_open ≡ true
    → ((send_on m c).to_gemini ≡ c.to_gemini ++ m ∷ [])
      × ((send_on m c).audio_buffer_queue ≡ c.audio_buffer_queue)
unfolding send_on
send_on-open m c o = ground (arith, o)

send_on-shut :
    (m : Message) (c : Relay) (waiting : List Message)
    → c.gemini_open ≡ false
    → c.audio_buffer_queue ≡ newest 50 waiting
    → ((send_on m c).to_gemini ≡ c.to_gemini)
      × ((send_on m c).audio_buffer_queue ≡ newest 50 (waiting ++ m ∷ []))
unfolding send_on
send_on-shut m c waiting o q = (rw o refl, rw (o, q) (newest-snoc 50 waiting m))

-- While Gemini's socket is open, every message is sent.
sends-open :
    (start n : ℕ) (ms : List (ℕ × Message)) (c : Relay)
    → IsRunning start n c
    → c.gemini_open ≡ true
    → All (IsPlain start) ms
    → n + texts ms ≤ 120
    → ((says_all ms c).to_gemini ≡ c.to_gemini ++ messages ms)
      × ((says_all ms c).audio_buffer_queue ≡ c.audio_buffer_queue)
unfolding says_all
sends-open start n [] c i o p h = (sym (append-nil c.to_gemini), refl)
sends-open start n ((now, m) ∷ ms) c i o (q, p) h =
    let next = client_says-plain start n now m c i q (omega arith) in
    let k = n + texts ((now, m) ∷ []) in
    let rest = sends-open start k ms (client_says now m c) next.0 (next.1 ∙ o) p (omega arith) in
    let sent = send_on-open m c o in
    (
      rest.0
          ∙ ap (λ (l : List Message). l ++ messages ms) (next.2 ∙ sent.0)
          ∙ append_assoc c.to_gemini (m ∷ []) (messages ms),
      rest.1 ∙ next.3 ∙ sent.1,
    )

-- Until it opens, the newest 50 wait.
waits-shut :
    (start n : ℕ) (ms : List (ℕ × Message)) (c : Relay) (waiting : List Message)
    → IsRunning start n c
    → c.gemini_open ≡ false
    → c.audio_buffer_queue ≡ newest 50 waiting
    → All (IsPlain start) ms
    → n + texts ms ≤ 120
    → ((says_all ms c).to_gemini ≡ c.to_gemini)
      × ((says_all ms c).audio_buffer_queue ≡ newest 50 (waiting ++ messages ms))
unfolding says_all
waits-shut start n [] c waiting i o w p h = (refl, w ∙ ap (newest 50) (sym (append-nil waiting)))
waits-shut start n ((now, m) ∷ ms) c waiting i o w (q, p) h =
    let next = client_says-plain start n now m c i q (omega arith) in
    let k = n + texts ((now, m) ∷ []) in
    let kept = send_on-shut m c waiting o w in
    let rest =
      waits-shut start k ms (client_says now m c) (waiting ++ m ∷ []) next.0 (next.1 ∙ o)
        (next.3 ∙ kept.1) p (omega arith) in
    (
      rest.0 ∙ next.2 ∙ kept.0,
      rest.1 ∙ ap (newest 50) (append_assoc waiting (m ∷ []) (messages ms)),
    )

-- If the messages of the first minute are at most 64 KB each, and at most 120 of them are texts, then
-- Gemini gets, in the order in which the client sent them, the newest 50 of those that came
-- before its socket was open, and all that came afterwards.
pub relayed_in_order :
    (start : ℕ) (early late : List (ℕ × Message))
    → All (IsPlain start) early
    → All (IsPlain start) late
    → texts early + texts late ≤ 120
    → (says_all late (gemini_opens (says_all early (opened start)))).to_gemini
      ≡ newest 50 (messages early) ++ messages late
unfolding gemini_opens
relayed_in_order start early late p q h =
    let first : IsRunning start 0 (opened start) = record {
      live = refl;
      begun = refl;
      counted = refl;
    } in
    let waiting = says_all early (opened start) in
    let run = run-IsRunning start 0 early (opened start) first p (omega arith) in
    let kept = waits-shut start 0 early (opened start) [] first refl refl p (omega arith) in
    let ready : IsRunning start (texts early) (gemini_opens waiting) = record {
      live = run.0.live;
      begun = run.0.begun;
      counted = omega (arith, run.0.counted);
    } in
    (sends-open start (texts early) late (gemini_opens waiting) ready refl q h).0
    ∙ ap (λ (l : List Message). l ++ messages late) (rw (kept.0, kept.1) refl)

newest-later :
    {A : Type 0} (n : ℕ) (x : A) (xs : List A) → n ≤ length xs → newest n (x ∷ xs) ≡ newest n xs
newest-later n x xs h = ground (arith, h)

-- The setup of a session is the first message. If fifty messages follow it before Gemini's socket is
-- open, it is never sent: Gemini gets what it gets from a client without it.
pub setup_lost :
    (start : ℕ) (setup : ℕ × Message) (early late : List (ℕ × Message))
    → All (IsPlain start) (setup ∷ early)
    → All (IsPlain start) late
    → texts (setup ∷ early) + texts late ≤ 120
    → 50 ≤ length (messages early)
    → (says_all late (gemini_opens (says_all (setup ∷ early) (opened start)))).to_gemini
      ≡ (says_all late (gemini_opens (says_all early (opened start)))).to_gemini
setup_lost start (now, m) early late (s, p) q h fifty =
    relayed_in_order start ((now, m) ∷ early) late (s, p) q h
    ∙ ap (λ (l : List Message). l ++ messages late) (newest-later 50 m (messages early) fifty)
    ∙ sym (relayed_in_order start early late p q (omega arith))
