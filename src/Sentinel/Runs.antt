-- ===== src/Sentinel/Runs.antt =====
-- What happens to the sentinel in a session, in any order: chunks of sound, calls of `publish` that
-- return, interruptions.
use dreamweaver.Prelude.{ℕ, ◌≤◌, Option, none, some, List, [], ◌∷◌, ◌≡◌, arith}
use dreamweaver.Sentinel.{
  Sentinel, Chunk, SleepCue, Breathing, hear, settle, interrupt, weigh, observe_envelope,
}

pub data Happening : Type 0 where
  heard : (now : ℕ) → Chunk → Happening
  published : (now : ℕ) → Happening
  interrupted : Happening

abbrev pub listed : Option SleepCue → List SleepCue → List SleepCue
listed none cues = cues
listed (some c) cues = c ∷ cues

module _ (analyze : List ℕ → ℕ → Breathing) where
  unfoldable pub happen : Happening → Sentinel → Sentinel × Option SleepCue
  happen (heard now c) s = hear analyze now c s
  happen (published now) s = (settle now s, none)
  happen interrupted s = (interrupt s, none)

  -- The state afterwards, and the cues that were published.
  unfoldable pub run : List Happening → Sentinel → Sentinel × List SleepCue
  run [] s = (s, [])
  run (h ∷ hs) s =
      let next = happen h s in let rest = run hs next.0 in (rest.0, listed next.1 rest.1)

  pub observe_envelope-keeps :
      (rms samples : ℕ) (s : Sentinel)
      → ((observe_envelope analyze rms samples s).confidence ≡ s.confidence)
        × ((observe_envelope analyze rms samples s).last_cue_at_ms ≡ s.last_cue_at_ms)
  unfolding observe_envelope
  observe_envelope-keeps rms samples s = ground arith

pub weigh-keeps :
    (volume variance : ℕ) (s : Sentinel)
    → ((weigh volume variance s).last_cue_at_ms ≡ s.last_cue_at_ms)
      × ((weigh volume variance s).latest_breathing ≡ s.latest_breathing)
unfolding weigh
weigh-keeps volume variance s = ground arith

pub weigh-le :
    (volume variance : ℕ) (s : Sentinel)
    → s.confidence ≤ 10000
    → (weigh volume variance s).confidence ≤ 10000
unfolding weigh
weigh-le volume variance s h = ground arith
