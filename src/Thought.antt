-- ===== src/Thought.antt =====
-- The session phases and their transitions (api/src/domain/services/AtomOfThoughtEngine.ts).
pub mod Reach
pub mod Arbiter

pub data SessionPhase : Type 0 where
  idle onboarding storytelling reflection wind_down asleep : SessionPhase

pub data Signal : Type 0 where
  start story_start story_end sleep_detected wake_up : Signal

unfoldable pub transition : SessionPhase → Signal → SessionPhase
transition idle start = onboarding
transition idle _ = idle
transition onboarding story_start = storytelling
transition onboarding _ = onboarding
transition storytelling sleep_detected = asleep
transition storytelling story_end = reflection
transition storytelling _ = storytelling
transition reflection sleep_detected = asleep
transition reflection _ = wind_down
transition wind_down sleep_detected = asleep
transition wind_down _ = wind_down
transition asleep wake_up = idle
transition asleep _ = asleep
