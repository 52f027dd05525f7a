-- ===== src/Quality.antt =====
-- The gate on the measures of quality (api/src/domain/services/QualityGate.ts). A measure is a
-- fraction; the thresholds are in hundredths, also those in seconds and milliseconds.
pub mod Breaches
use dreamweaver.Prelude.{ℕ, ◌*◌, ◌-◌, Bool, Option, none, some, ltb, if◌then◌else◌}

pub data Metric : Type 0 where
  ucr orr mtth latency_ms error_rate : Metric

pub data Direction : Type 0 where
  above below : Direction

pub record Rule : Type 0 where
  pub warn : ℕ
  pub critical : ℕ
  pub direction : Direction

pub data Severity : Type 0 where
  warning critical : Severity

pub record Measure : Type 0 where
  pub num : ℕ
  pub den : ℕ

unfoldable pub thresholds : Metric → Rule
thresholds ucr = record { warn = 85; critical = 70; direction = below }
thresholds orr = record { warn = 50; critical = 20; direction = below }
thresholds mtth = record { warn = 30000; critical = 6000; direction = below }
thresholds latency_ms = record { warn = 150000; critical = 300000; direction = above }
thresholds error_rate = record { warn = 5; critical = 10; direction = above }

-- Whether a measure is over the threshold, to the bad side.
unfoldable pub is_beyond : Direction → Measure → ℕ → Bool
is_beyond below value threshold = ltb (value.num * 100) (threshold * value.den)
is_beyond above value threshold = ltb (threshold * value.den) (value.num * 100)

-- The alert: its severity and its threshold. A critical one is the exception `QualityGateError`.
unfoldable pub check_metric : Metric → Measure → Option (Severity × ℕ)
unfolding thresholds is_beyond
check_metric metric value =
    let rules = thresholds metric in
    if is_beyond rules.direction value rules.critical
    then some (critical, rules.critical)
    else if is_beyond rules.direction value rules.warn
    then some (warning, rules.warn)
    else none

abbrev pub is_critical : Option (Severity × ℕ) → Bool
is_critical none = Bool.false
is_critical (some (warning, t)) = Bool.false
is_critical (some (critical, t)) = Bool.true

-- `1.0 - (interventions / interactions)`
abbrev pub completion_rate : ℕ → ℕ → Measure
completion_rate interventions interactions = record {
  num = interactions - interventions;
  den = interactions;
}
