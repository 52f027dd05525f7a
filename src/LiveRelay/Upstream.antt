-- ===== src/LiveRelay/Upstream.antt =====
-- What changes neither where the sound of a client goes nor the sound that was sent.
use mathlib.Core.List.{append-nil}
use dreamweaver.Prelude.{
  ℕ, String, Option, none, some, List, [], ◌∷◌, ◌++◌, map, ◌≡◌, refl, ◌∙◌, ap, arith, truthy,
  Bool-cases, inl, inr, not, ◌&&◌,
}
use dreamweaver.LiveRelay.{
  Input, sound, words, tool_response, Connection, ClientMessage, to_session, receive_text,
  send_session, send_words, send_response, rename_session, analyse, disconnect, close_session,
}

-- The sound that the sessions were sent, with the numbers of the sessions.
abbrev pub sent_sounds : List (ℕ × Input) → List (ℕ × String)
sent_sounds [] = []
sent_sounds ((n, sound chunk) ∷ is) = (n, chunk) ∷ sent_sounds is
sent_sounds ((n, words text) ∷ is) = sent_sounds is
sent_sounds ((n, tool_response r) ∷ is) = sent_sounds is

pub sent_sounds-append :
    (xs ys : List (ℕ × Input)) → sent_sounds (xs ++ ys) ≡ sent_sounds xs ++ sent_sounds ys
sent_sounds-append [] ys = refl
sent_sounds-append ((n, sound chunk) ∷ xs) ys =
    ap (λ (l : List (ℕ × String)). (n, chunk) ∷ l) (sent_sounds-append xs ys)
sent_sounds-append ((n, words text) ∷ xs) ys = sent_sounds-append xs ys
sent_sounds-append ((n, tool_response r) ∷ xs) ys = sent_sounds-append xs ys

abbrev pub numbered : ℕ → List String → List (ℕ × String)
numbered n chunks = map (λ chunk. (n, chunk)) chunks

pub numbered-append :
    (n : ℕ) (xs ys : List String) → numbered n (xs ++ ys) ≡ numbered n xs ++ numbered n ys
numbered-append n [] ys = refl
numbered-append n (x ∷ xs) ys = ap (λ l. (n, x) ∷ l) (numbered-append n xs ys)

pub sent_sounds-to_session :
    (n : ℕ) (xs : List String) → sent_sounds (to_session n xs) ≡ numbered n xs
sent_sounds-to_session n [] = refl
sent_sounds-to_session n (x ∷ xs) = ap (λ l. (n, x) ∷ l) (sent_sounds-to_session n xs)

-- The fields that say where sound goes, and the sound that was sent.
pub record Same (c c' : Connection) : Type 0 where
  pub active : c'.is_session_active ≡ c.is_session_active
  pub live : c'.live_session ≡ c.live_session
  pub count : c'.started ≡ c.started
  pub queue : c'.audio_buffer_queue ≡ c.audio_buffer_queue
  pub sent : sent_sounds c'.upstream ≡ sent_sounds c.upstream

abbrev pub same : (c : Connection) → Same c c
same c = record { active = refl; live = refl; count = refl; queue = refl; sent = refl }

pub Same-trans : {a b c : Connection} → Same a b → Same b c → Same a c
Same-trans p q = record {
  active = q.active ∙ p.active;
  live = q.live ∙ p.live;
  count = q.count ∙ p.count;
  queue = q.queue ∙ p.queue;
  sent = q.sent ∙ p.sent;
}

-- An input that is no sound.
pub send_session-Same :
    (i : Input) (live : Option ℕ) (c : Connection)
    → ((n : ℕ) → sent_sounds ((n, i) ∷ []) ≡ [])
    → Same c (send_session i live c)
send_session-Same i none c silent = same c
send_session-Same i (some n) c silent = record {
  active = refl;
  live = refl;
  count = refl;
  queue = refl;
  sent =
      sent_sounds-append c.upstream ((n, i) ∷ [])
      ∙ rw (silent n) (append-nil (sent_sounds c.upstream));
}

send_words-Same : (o : Option String) (c : Connection) → Same c (send_words o c)
send_words-Same none c = same c
send_words-Same (some text) c = send_session-Same (words text) c.live_session c (λ n. refl)

send_response-Same : (o : Option String) (c : Connection) → Same c (send_response o c)
send_response-Same none c = same c
send_response-Same (some r) c = send_session-Same (tool_response r) c.live_session c (λ n. refl)

rename_session-Same : (o : Option String) (c : Connection) → Same c (rename_session o c)
rename_session-Same none c = same c
rename_session-Same (some id) c = record {
  active = refl;
  live = refl;
  count = refl;
  queue = refl;
  sent = refl;
}

pub receive_text-Same : (m : ClientMessage) (c : Connection) → Same c (receive_text m c)
unfolding receive_text
receive_text-Same m c = elim (Bool-cases (m.has_setup && not c.is_session_active)) [
  | inl e ↦ rw e (rename_session-Same (truthy m.session_id) c)
  | inr e ↦ elim (Bool-cases (not c.is_session_active)) [
    | inl f ↦ rw (e, f) (same c)
    | inr f ↦
        rw (e, f)
          (Same-trans (send_words-Same (truthy m.text) c)
            (send_response-Same m.tool_response (send_words (truthy m.text) c)))
  ]
]

pub analyse-Same : (o : Option String) (c : Connection) → Same c (analyse o c)
analyse-Same none c = same c
analyse-Same (some user) c = record {
  active = refl;
  live = refl;
  count = refl;
  queue = refl;
  sent = refl;
}

pub disconnect-Same : (o : Option ℕ) (c : Connection) → Same c (disconnect o c)
disconnect-Same none c = same c
disconnect-Same (some n) c = record {
  active = refl;
  live = refl;
  count = refl;
  queue = refl;
  sent = refl;
}

pub close_session-Same : (n code : ℕ) (c : Connection) → Same c (close_session n code c)
unfolding close_session
close_session-Same n code c = record {
  active = ground arith;
  live = ground arith;
  count = ground arith;
  queue = ground arith;
  sent =
      ap sent_sounds
        (let kept : (close_session n code c).upstream ≡ c.upstream = ground arith in kept);
}
