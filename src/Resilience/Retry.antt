-- ===== src/Resilience/Retry.antt =====
-- Retrying with exponential backoff (api/src/infrastructure/resilience.ts). `fn n` is the outcome of
-- the call that is made in round n; the waits are listed in order.
pub mod Waits
use dreamweaver.Prelude.{ℕ, zero, suc, ◌+◌, ◌-◌, ◌*◌, ◌^◌, List, [], ◌∷◌, min, Option, or_else}

pub record RetryOptions : Type 0 where
  pub max_retries : ℕ
  pub base_delay_ms : ℕ
  pub max_delay_ms : ℕ

abbrev pub default_options : RetryOptions
default_options = record { max_retries = 3; base_delay_ms = 1000; max_delay_ms = 10000 }

-- `Partial<RetryOptions>`
pub record PartialOptions : Type 0 where
  pub max_retries : Option ℕ
  pub base_delay_ms : Option ℕ
  pub max_delay_ms : Option ℕ

-- `{ ...DEFAULT_OPTIONS, ...options }`
unfoldable pub with_defaults : PartialOptions → RetryOptions
with_defaults o = record {
  max_retries = or_else o.max_retries default_options.max_retries;
  base_delay_ms = or_else o.base_delay_ms default_options.base_delay_ms;
  max_delay_ms = or_else o.max_delay_ms default_options.max_delay_ms;
}

pub data Outcome {ℓ} (T : Type ℓ) (E : Type ℓ) : Type ℓ where
  returned : T → Outcome T E
  thrown : E → Outcome T E

unfoldable pub delay : RetryOptions → ℕ → ℕ
delay opts attempt = min (opts.base_delay_ms * 2 ^ attempt) opts.max_delay_ms

module _ {ℓ} {T E : Type ℓ} (fn : ℕ → Outcome T E) (opts : RetryOptions) where
  -- The loop from round `attempt` on, with `left` rounds after it.
  unfoldable pub retry_from : (left attempt : ℕ) → Outcome T E × List ℕ
  retry_from zero attempt = (fn attempt, [])
  retry_from (suc left) attempt =
      let (outcome, waits) = retry_from left (attempt + 1) in
      elim (fn attempt) [
        | returned t ↦ (returned t, [])
        | thrown e ↦ (outcome, delay opts attempt ∷ waits)
      ]

-- `withRetry`: what it returns or throws, and its waits.
unfoldable pub with_retry {ℓ} :
    {T E : Type ℓ} → (ℕ → Outcome T E) → PartialOptions → Outcome T E × List ℕ
unfolding with_defaults delay retry_from
with_retry fn options = let opts = with_defaults options in retry_from fn opts opts.max_retries 0
