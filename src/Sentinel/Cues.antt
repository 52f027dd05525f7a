-- ===== src/Sentinel/Cues.antt =====
-- Which cues the sentinel publishes, and how often.
use mathlib.Core.Path.{subst}
use dreamweaver.Prelude.{
  ℕ, suc, ◌≤◌, ◌<◌, ◌+◌, none, some, true, List, [], ◌∷◌, length, All, ◌≡◌, refl, ◌∙◌, ap, arith,
  Bool-cases, inl, inr,
}
use dreamweaver.Sentinel.{
  Sentinel, Chunk, SleepCue, Breathing, hear, settle, interrupt, weigh, observe_envelope, is_due,
}
use dreamweaver.Sentinel.Runs.{
  Happening, heard, published, interrupted, listed, happen, run, observe_envelope-keeps, weigh-le,
  weigh-keeps,
}

-- A cue with a confidence above 0.85 and at most 1.
abbrev pub IsSure : SleepCue → Type 0
IsSure c = (8500 < c.confidence) × (c.confidence ≤ 10000)

module _ (analyze : List ℕ → ℕ → Breathing) where
  abbrev weighed : Chunk → Sentinel → Sentinel
  weighed c s = weigh c.rms c.variance (observe_envelope analyze c.rms c.samples s)

  weighed-le : (c : Chunk) (s : Sentinel) → s.confidence ≤ 10000 → (weighed c s).confidence ≤ 10000
  weighed-le c s h =
      weigh-le c.rms c.variance (observe_envelope analyze c.rms c.samples s)
        (rw ((observe_envelope-keeps analyze c.rms c.samples s).0) h)

  -- Whatever is heard, in whatever order calls return and interruptions come, the confidence stays
  -- at most 1, and every cue that is published has a confidence above 0.85 and at most 1.
  pub run-IsSure :
      (hs : List Happening) (s : Sentinel)
      → s.confidence ≤ 10000
      → ((run analyze hs s).0.confidence ≤ 10000) × All IsSure (run analyze hs s).1
  unfolding run happen hear settle interrupt
  run-IsSure [] s h = (h, tt)
  run-IsSure (heard now c ∷ hs) s h =
      let m = weighed-le c s h in
      let rest = run-IsSure hs (weighed c s) m in
      elim (Bool-cases (is_due now (weighed c s))) [
        | inl due ↦ (rest.0, rw due ((ground arith, m), rest.1))
        | inr early ↦ (rest.0, rw early rest.1)
      ]
  run-IsSure (published now ∷ hs) s h = run-IsSure hs (settle now s) (omega arith)
  run-IsSure (interrupted ∷ hs) s h = run-IsSure hs (interrupt s) (omega arith)

  -- Chunks where each call of `publish` returns before the next chunk comes.
  unfoldable pub hear_all : List (ℕ × Chunk) → Sentinel → List SleepCue
  hear_all [] s = []
  hear_all ((now, c) ∷ cs) s =
      let next = hear analyze now c s in
      let after = hear_all cs (settle now next.0) in
      let rest = hear_all cs next.0 in elim next.1 [ none ↦ rest | some cue ↦ cue ∷ after ]

  -- Chunks that all come before the first call of `publish` returns.
  unfoldable pub hear_at_once : List (ℕ × Chunk) → Sentinel → List SleepCue
  hear_at_once [] s = []
  hear_at_once ((now, c) ∷ cs) s =
      let next = hear analyze now c s in listed next.1 (hear_at_once cs next.0)

  -- Each cue comes more than thirty seconds after the one before.
  abbrev pub Spaced : ℕ → List SleepCue → Type 0
  Spaced last [] = Unit {0}
  Spaced last (c ∷ cs) = (last + 30000 < c.at) × Spaced c.at cs

  weighed-last : (c : Chunk) (s : Sentinel) → (weighed c s).last_cue_at_ms ≡ s.last_cue_at_ms
  weighed-last c s =
      (weigh-keeps c.rms c.variance (observe_envelope analyze c.rms c.samples s)).0
      ∙ (observe_envelope-keeps analyze c.rms c.samples s).1

  -- If each call of `publish` returns before the next chunk comes, then between two cues, and before
  -- the first one since the last cue, are more than thirty seconds.
  pub hear_all-Spaced :
      (cs : List (ℕ × Chunk)) (s : Sentinel) → Spaced s.last_cue_at_ms (hear_all cs s)
  unfolding hear_all hear settle
  hear_all-Spaced [] s = tt
  hear_all-Spaced ((now, c) ∷ cs) s = elim (Bool-cases (is_due now (weighed c s))) [
    | inl due ↦
        rw (due, Spaced)
          (ground (arith, due, weighed-last c s), hear_all-Spaced cs (settle now (weighed c s)))
    | inr early ↦
        rw (early, Spaced)
          (subst (λ (last : ℕ). Spaced last (hear_all cs (weighed c s))) (weighed-last c s)
            (hear_all-Spaced cs (weighed c s)))
  ]

  weighed_quiet :
      (c : Chunk) (s : Sentinel)
      → c.rms < 500
      → 8500 ≤ s.confidence
      → 8500 < (weighed c s).confidence
  unfolding weigh
  weighed_quiet c s quiet h =
      let kept = (observe_envelope-keeps analyze c.rms c.samples s).0 in
      ground (arith, kept, quiet, h)

  -- A quiet chunk that comes thirty seconds after the last cue.
  abbrev pub IsQuietAfter : ℕ → ℕ × Chunk → Type 0
  IsQuietAfter last (now, c) = (c.rms < 500) × (last + 30000 < now)

  -- If no call of `publish` returns in between, every quiet chunk publishes a cue, once the
  -- confidence has reached 0.85 and the last cue that returned is more than thirty seconds ago: the
  -- pause between the cues is not kept.
  pub hear_at_once-length :
      (cs : List (ℕ × Chunk)) (s : Sentinel)
      → 8500 ≤ s.confidence
      → All (IsQuietAfter s.last_cue_at_ms) cs
      → length (hear_at_once cs s) ≡ length cs
  unfolding hear_at_once hear
  hear_at_once-length [] s h q = refl
  hear_at_once-length ((now, c) ∷ cs) s h ((quiet, late), q) =
      let sure = weighed_quiet c s quiet h in
      let last = weighed-last c s in
      let due : is_due now (weighed c s) ≡ true = ground (arith, sure, last, late) in
      rw due (ap suc (hear_at_once-length cs (weighed c s) (omega arith) (rw last q)))
