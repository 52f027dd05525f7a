-- ===== src/Quality/Breaches.antt =====
-- When the gate stops a turn.
use dreamweaver.Prelude.{ℕ, ◌*◌, ◌<◌, ◌≡◌, arith, ltb}
use dreamweaver.Quality.{ucr, thresholds, is_beyond, check_metric, is_critical, completion_rate}

-- After at least one interaction, the gate stops the session exactly when more than three tenths of
-- the interactions are interventions.
pub completion_rate_breach :
    (interventions interactions : ℕ)
    → 0 < interactions
    → is_critical (check_metric ucr (completion_rate interventions interactions))
      ≡ ltb (3 * interactions) (10 * interventions)
unfolding check_metric thresholds is_beyond
completion_rate_breach k n h = ground arith
