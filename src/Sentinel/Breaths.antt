-- ===== src/Sentinel/Breaths.antt =====
-- When the sentinel can hear breathing: the envelope has one value for each chunk, and is kept for
-- sixteen seconds.
use dreamweaver.Prelude.{
  ℕ, zero, suc, ◌≤◌, ◌<◌, none, false, List, [], ◌∷◌, ◌++◌, length, All, ◌≡◌, refl, ◌∙◌, arith, leb,
  Bool-cases, inl, inr,
}
use dreamweaver.Sentinel.{
  Sentinel, Chunk, SleepCue, silence, Breathing, hear, settle, interrupt, weigh, observe_envelope,
  shift_to, max_samples, is_due,
}
use dreamweaver.Sentinel.Runs.{
  Happening, heard, published, interrupted, listed, happen, run, weigh-keeps,
}

length-shift_to : (limit : ℕ) (xs : List ℕ) → length (shift_to limit xs) ≤ limit
unfolding shift_to
length-shift_to limit [] = omega arith
length-shift_to limit (x ∷ xs) = ground (arith, length-shift_to limit xs)

max_samples-le : (n : ℕ) → 1000 < n → max_samples n ≤ 255
max_samples-le n h = grind arith

-- Nothing of the breathing is known, and the envelope is too short to analyse it.
record IsDeaf (s : Sentinel) : Type 0 where
  none_known : s.latest_breathing ≡ none
  short : length s.envelope_rms ≤ 255

-- A chunk of more than 1000 samples, which are more than 62.5 milliseconds.
abbrev pub IsLong : Happening → Type 0
IsLong (heard now c) = 1000 < c.samples
IsLong (published now) = Unit {0}
IsLong interrupted = Unit {0}

weigh-envelope :
    (volume variance : ℕ) (s : Sentinel) → (weigh volume variance s).envelope_rms ≡ s.envelope_rms
unfolding weigh
weigh-envelope volume variance s = ground arith

module _ (analyze : List ℕ → ℕ → Breathing) where
  observe_envelope-IsDeaf :
      (rms n : ℕ) (s : Sentinel) → 1000 < n → IsDeaf s → IsDeaf (observe_envelope analyze rms n s)
  unfolding observe_envelope
  observe_envelope-IsDeaf rms (suc n) s h d =
      let kept = shift_to (max_samples (suc n)) (s.envelope_rms ++ rms ∷ []) in
      let few : length kept ≤ 255 = omega (
        arith,
        length-shift_to (max_samples (suc n)) (s.envelope_rms ++ rms ∷ []),
        max_samples-le (suc n) h,
      ) in
      let early : leb 256 (length kept) ≡ false = ground (arith, few) in
      rw early (record { none_known = d.none_known; short = few })
  observe_envelope-IsDeaf rms zero s h d = absurd (omega arith)

  hear-IsDeaf :
      (now : ℕ) (c : Chunk) (s : Sentinel)
      → 1000 < c.samples
      → IsDeaf s
      → IsDeaf (hear analyze now c s).0
  unfolding hear
  hear-IsDeaf now c s h d =
      let o = observe_envelope analyze c.rms c.samples s in
      let d' = observe_envelope-IsDeaf c.rms c.samples s h d in
      record {
        none_known = (weigh-keeps c.rms c.variance o).1 ∙ d'.none_known;
        short = rw (weigh-envelope c.rms c.variance o) d'.short;
      }

  abbrev AreSilent : List SleepCue → Type 0
  AreSilent = All (λ (c : SleepCue). c.cue ≡ silence)

  listed-silence :
      (now : ℕ) (c : Chunk) (s : Sentinel) (cues : List SleepCue)
      → IsDeaf (hear analyze now c s).0
      → AreSilent cues
      → AreSilent (listed (hear analyze now c s).1 cues)
  unfolding hear
  listed-silence now c s cues d rest =
      let s' = weigh c.rms c.variance (observe_envelope analyze c.rms c.samples s) in
      elim (Bool-cases (is_due now s')) [
        | inl due ↦ rw due (rw d.none_known refl, rest)
        | inr early ↦ rw early rest
      ]

  run-IsDeaf :
      (hs : List Happening) (s : Sentinel)
      → All IsLong hs
      → IsDeaf s
      → ((run analyze hs s).0.latest_breathing ≡ none)
        × All (λ (c : SleepCue). c.cue ≡ silence) (run analyze hs s).1
  unfolding run happen settle interrupt
  run-IsDeaf [] s long d = (d.none_known, tt)
  run-IsDeaf (heard now c ∷ hs) s (h, long) d =
      let s' = (hear analyze now c s).0 in
      let d' = hear-IsDeaf now c s h d in
      let rest = run-IsDeaf hs s' long d' in
      (rest.0, listed-silence now c s (run analyze hs s').1 d' rest.1)
  run-IsDeaf (published now ∷ hs) s (_, long) d =
      run-IsDeaf hs (settle now s) long (record { none_known = d.none_known; short = d.short })
  run-IsDeaf (interrupted ∷ hs) s (_, long) d =
      run-IsDeaf hs (interrupt s) long (record { none_known = d.none_known; short = d.short })

  -- If every chunk has more than 1000 samples, the breathing is never analysed, whatever is heard:
  -- a sentinel that knows nothing of the breathing and has at most 255 values of the envelope, as a
  -- fresh one, still knows nothing of it, and every cue that it publishes is one of silence.
  pub long_chunks_silent :
      (hs : List Happening) (s : Sentinel)
      → All IsLong hs
      → s.latest_breathing ≡ none
      → length s.envelope_rms ≤ 255
      → ((run analyze hs s).0.latest_breathing ≡ none)
        × All (λ (c : SleepCue). c.cue ≡ silence) (run analyze hs s).1
  long_chunks_silent hs s long e short =
      run-IsDeaf hs s long (record { none_known = e; short = short })
