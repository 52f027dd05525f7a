-- ===== src/Ambient/Laws.antt =====
-- What the surroundings guarantee, and how they meet the arbitration
-- (AmbientContextService.ts, AtomOfThoughtEngine.ts).
use dreamweaver.Prelude.{
  ℕ, ◌≤◌, ◌<◌, ◌+◌, Option, none, ◌≡◌, ◌⊎◌, refl, false, arith, length, includes,
}
use dreamweaver.Ambient.{
  TimeOfDay, morning, afternoon, evening, night, AmbientContext, time_text, time_of_day,
  WeatherAnswer, Clock, Service, get_ambient_context, suggest_themes,
}
use dreamweaver.Thought.Arbiter.{ThoughtStep, is_late, bedtime_rule}

-- A second request, less than five minutes after one that found nothing in the cache, gets the
-- same answer and leaves the service as it is, whatever the weather and the hour are by then.
pub cached_five_minutes :
    (s : Service) (first second : Clock) (answer later : Option WeatherAnswer)
    → s.cache_expiry ≡ none
    → second.now < first.now + 300000
    → let (s', context) = get_ambient_context s first answer in
      get_ambient_context s' second later ≡ (s', context)
unfolding get_ambient_context
cached_five_minutes s first second answer later e h = ground arith

-- The hours of each part of the day.
pub time_of_day-night : (hour : ℕ) → time_of_day hour ≡ night → (hour < 5) ⊎ (20 < hour)
unfolding time_of_day
time_of_day-night hour h = ground arith

time_text-not_late : (time : TimeOfDay) → is_late (time_text time) ≡ false
unfolding is_late includes
time_text-not_late morning = refl
time_text-not_late afternoon = refl
time_text-not_late evening = refl
time_text-not_late night = refl

-- The rule for late hours never changes a thought when the time of day comes from this service: the
-- rule looks for `Night` and `Evening`, and the service says `night` and `evening`.
pub bedtime_rule-ambient :
    (s : Service) (clock : Clock) (answer : Option WeatherAnswer) (t : ThoughtStep)
    → bedtime_rule (time_text (get_ambient_context s clock answer).1.time_of_day) t ≡ t
unfolding bedtime_rule
bedtime_rule-ambient s clock answer t =
    ground (arith, time_text-not_late (get_ambient_context s clock answer).1.time_of_day)

-- Between two and five themes are suggested.
pub suggest_themes_count :
    (context : AmbientContext)
    → (2 ≤ length (suggest_themes context)) × (length (suggest_themes context) ≤ 5)
unfolding suggest_themes
suggest_themes_count context = ground arith
