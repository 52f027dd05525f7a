-- ===== src/Resilience/Retry/Waits.antt =====
-- What `withRetry` returns, and how long it waits (api/src/infrastructure/resilience.ts).
use dreamweaver.Prelude.{
  ℕ, zero, suc, ◌+◌, ◌^◌, ◌≤◌, List, [], ◌∷◌, ◌≡◌, refl, arith, length, ◌⊎◌, inl, inr,
}
use native.Mathlib.Numerals.{towards_suc}
use dreamweaver.Resilience.Retry.{
  RetryOptions, PartialOptions, with_defaults, Outcome, returned, thrown, delay, retry_from,
  with_retry,
}

-- The waits are at least `d` and in order, and none is longer than the longest delay.
abbrev pub Rises : RetryOptions → ℕ → List ℕ → Type 0
Rises opts d [] = Unit
Rises opts d (w ∷ ws) = (d ≤ w) × (w ≤ opts.max_delay_ms) × Rises opts w ws

Rises-weaken :
    (opts : RetryOptions) (c d : ℕ) (ws : List ℕ) → c ≤ d → Rises opts d ws → Rises opts c ws
Rises-weaken opts c d [] h r = tt
Rises-weaken opts c d (w ∷ ws) h (p, q, r) = (omega arith, q, r)

delay-le-max : (opts : RetryOptions) (a : ℕ) → delay opts a ≤ opts.max_delay_ms
unfolding delay
delay-le-max opts a = omega arith

pow-doubles : (a : ℕ) → 2 ^ (a + 1) ≡ 2 ^ a + 2 ^ a
pow-doubles a = simp towards_suc (omega arith)

delay_mono : (opts : RetryOptions) (a : ℕ) → delay opts a ≤ delay opts (a + 1)
unfolding delay
delay_mono opts a = rw (pow-doubles a) (omega arith)

Outcome-cases {ℓ} :
    {T E : Type ℓ} (o : Outcome T E) → ((t : T) × (o ≡ returned t)) ⊎ ((e : E) × (o ≡ thrown e))
Outcome-cases (returned t) = inl (t, refl)
Outcome-cases (thrown e) = inr (e, refl)

module _ {ℓ} {T E : Type ℓ} (fn : ℕ → Outcome T E) where
  -- The `n` rounds from `a` on fail.
  abbrev pub Throws : (n a : ℕ) → Type ℓ
  Throws zero a = Unit
  Throws (suc n) a = ((e : E) × (fn a ≡ thrown e)) × Throws n (a + 1)

  retry_from-returned :
      (opts : RetryOptions) (n left a b : ℕ) (t : T)
      → n ≤ left
      → a + n ≡ b
      → Throws n a
      → fn b ≡ returned t
      → ((retry_from fn opts left a).0 ≡ returned t) × (length (retry_from fn opts left a).1 ≡ n)
  unfolding retry_from
  retry_from-returned opts zero zero a b t h e fails ok =
      let here : a ≡ b = omega arith in rw here (rw ok (refl, refl))
  retry_from-returned opts zero (suc left) a b t h e fails ok =
      let here : a ≡ b = omega arith in rw here (rw (ok, retry_from) (refl, refl))
  retry_from-returned opts (suc n) zero a b t h e fails ok = absurd (omega arith)
  retry_from-returned opts (suc n) (suc left) a b t h e ((x, failed), fails) ok =
      let (same, count) =
        retry_from-returned opts n left (a + 1) b t (omega arith) (omega arith) fails ok in
      rw (failed, retry_from) (same, omega arith)

  retry_from-thrown :
      (opts : RetryOptions) (left a b : ℕ) (e : E)
      → a + left ≡ b
      → Throws left a
      → fn b ≡ thrown e
      → ((retry_from fn opts left a).0 ≡ thrown e) × (length (retry_from fn opts left a).1 ≡ left)
  unfolding retry_from
  retry_from-thrown opts zero a b e s fails last =
      let here : a ≡ b = omega arith in rw here (last, refl)
  retry_from-thrown opts (suc left) a b e s ((x, failed), fails) last =
      let (same, count) = retry_from-thrown opts left (a + 1) b e (omega arith) fails last in
      rw (failed, retry_from) (same, omega arith)

  retry_from-Rises :
      (opts : RetryOptions) (left a : ℕ) → Rises opts (delay opts a) (retry_from fn opts left a).1
  unfolding retry_from
  retry_from-Rises opts zero a = tt
  retry_from-Rises opts (suc left) a = elim (Outcome-cases (fn a)) [
    | inl (t, e) ↦ rw (e, retry_from) tt
    | inr (x, e) ↦
        rw (e, retry_from)
          (
            omega arith,
            delay-le-max opts a,
            Rises-weaken opts (delay opts a) (delay opts (a + 1)) _ (delay_mono opts a)
                (retry_from-Rises opts left (a + 1)),
          )
  ]

  length-retry_from :
      (opts : RetryOptions) (left a : ℕ) → length (retry_from fn opts left a).1 ≤ left
  unfolding retry_from
  length-retry_from opts zero a = omega arith
  length-retry_from opts (suc left) a = ground (arith, length-retry_from opts left (a + 1))

  -- If the first `n` calls fail and the next one, within the allowed retries, returns, then that
  -- value is returned, after exactly `n` waits.
  pub with_retry-returned :
      (options : PartialOptions) (n : ℕ) (t : T)
      → n ≤ (with_defaults options).max_retries
      → Throws n 0
      → fn n ≡ returned t
      → ((with_retry fn options).0 ≡ returned t) × (length (with_retry fn options).1 ≡ n)
  unfolding with_retry
  with_retry-returned options n t h fails ok =
      retry_from-returned (with_defaults options) n (with_defaults options).max_retries 0 n t h
        (omega arith) fails ok

  -- If the first call and all its retries fail, then the error of the last one is thrown, after as
  -- many waits as there are retries.
  pub with_retry-thrown :
      (options : PartialOptions) (e : E)
      → Throws (with_defaults options).max_retries 0
      → fn (with_defaults options).max_retries ≡ thrown e
      → ((with_retry fn options).0 ≡ thrown e)
        × (length (with_retry fn options).1 ≡ (with_defaults options).max_retries)
  unfolding with_retry
  with_retry-thrown options e fails last =
      retry_from-thrown (with_defaults options) (with_defaults options).max_retries 0 _ e
        (omega arith) fails last

  -- Whatever the calls do, the waits never get shorter, none is longer than the longest delay, the
  -- first is at least the delay of round 0, and there are at most as many as retries.
  pub with_retry-Rises :
      (options : PartialOptions)
      → Rises (with_defaults options) (delay (with_defaults options) 0) (with_retry fn options).1
        × (length (with_retry fn options).1 ≤ (with_defaults options).max_retries)
  unfolding with_retry
  with_retry-Rises options = (
    retry_from-Rises (with_defaults options) (with_defaults options).max_retries 0,
    length-retry_from (with_defaults options) (with_defaults options).max_retries 0,
  )
