-- ===== src/Ambient.antt =====
-- The surroundings of a session (api/src/infrastructure/services/AmbientContextService.ts). The
-- clock is read as hour, weekday and month; the weather answer of the outer service is a parameter
-- of `get_ambient_context`, reduced to its first `main` text, temperature and humidity.
pub mod Laws
use dreamweaver.Prelude.{
  ℕ, ◌+◌, ◌*◌, String, Option, none, some, Bool, true, false, ◌&&◌, ◌||◌, List, [], ◌∷◌, ◌++◌, ltb,
  leb, ◌==◌, take, includes, to_lower, str_eq, if◌then◌else◌,
}

pub data TimeOfDay : Type 0 where
  morning afternoon evening night : TimeOfDay

pub data Season : Type 0 where
  spring summer autumn winter : Season

pub data Condition : Type 0 where
  clear cloudy rainy snowy stormy unknown : Condition

pub data Mood : Type 0 where
  cozy magical calm adventurous : Mood

pub record Weather : Type 0 where
  pub condition : Condition
  pub temperature : ℕ
  pub humidity : ℕ

pub record AmbientContext : Type 0 where
  pub time_of_day : TimeOfDay
  pub weather : Weather
  pub season : Season
  pub is_weekend : Bool
  pub suggested_mood : Mood

-- The text of a value of the union type.
abbrev pub time_text : TimeOfDay → String
time_text morning = "morning"
time_text afternoon = "afternoon"
time_text evening = "evening"
time_text night = "night"

unfoldable pub time_of_day : ℕ → TimeOfDay
time_of_day hour =
    if leb 5 hour && ltb hour 12
    then morning
    else if leb 12 hour && ltb hour 17
    then afternoon
    else if leb 17 hour && ltb hour 21
    then evening
    else night

-- Months count from 0.
unfoldable pub season : ℕ → Season
season month =
    if leb 2 month && leb month 4
    then spring
    else if leb 5 month && leb month 7
    then summer
    else if leb 8 month && leb month 10
    then autumn
    else winter

-- The tests of `fetchWeather`, on the lower-case text.
unfoldable pub condition_of : String → Condition
condition_of main_weather =
    if includes main_weather "clear" || includes main_weather "sun"
    then clear
    else if includes main_weather "cloud"
    then cloudy
    else if includes main_weather "rain" || includes main_weather "drizzle"
    then rainy
    else if includes main_weather "snow"
    then snowy
    else if includes main_weather "thunder" || includes main_weather "storm"
    then stormy
    else unknown

abbrev pub default_weather : Weather
default_weather = record { condition = clear; temperature = 20; humidity = 50 }

-- The answer of the weather service: `none` where no call is made, where it fails and where it is
-- refused. The temperature comes rounded, in degrees above zero.
pub record WeatherAnswer : Type 0 where
  pub main : Option String
  pub temperature : ℕ
  pub humidity : ℕ

-- `data.weather[0]?.main?.toLowerCase() || 'unknown'`
main_text : Option String → String
main_text none = "unknown"
main_text (some text) = if str_eq text "" then "unknown" else to_lower text

unfoldable pub weather_of : Option WeatherAnswer → Weather
unfolding main_text condition_of
weather_of none = default_weather
weather_of (some answer) = record {
  condition = condition_of (main_text answer.main);
  temperature = answer.temperature;
  humidity = answer.humidity;
}

unfoldable pub mood_of : Condition → TimeOfDay → Mood
mood_of rainy _ = cozy
mood_of stormy _ = cozy
mood_of snowy _ = magical
mood_of _ night = calm
mood_of _ evening = calm
mood_of _ _ = adventurous

pub record Clock : Type 0 where
  pub now : ℕ
  pub hour : ℕ
  pub day : ℕ
  pub month : ℕ

pub record Service : Type 0 where
  pub cached_context : Option AmbientContext
  pub cache_expiry : Option ℕ

fresh_context : Clock → Option WeatherAnswer → AmbientContext
fresh_context clock answer =
    let time = time_of_day clock.hour in
    let weather = weather_of answer in
    record {
      time_of_day = time;
      weather = weather;
      season = season clock.month;
      is_weekend = clock.day == 0 || clock.day == 6;
      suggested_mood = mood_of weather.condition time;
    }

refresh : Clock → Option WeatherAnswer → Service × AmbientContext
unfolding fresh_context
refresh clock answer =
    let context = fresh_context clock answer in
    (
      record { cached_context = some context; cache_expiry = some (clock.now + 5 * 60 * 1000) },
      context,
    )

-- What the cache gives at the time `now`.
within : ℕ → Option AmbientContext → Option ℕ → Option AmbientContext
within now (some context) (some expiry) = if ltb now expiry then some context else none
within now (some context) none = none
within now none _ = none

answer_from :
    Option AmbientContext → Service → Clock → Option WeatherAnswer → Service × AmbientContext
answer_from (some context) s clock answer = (s, context)
answer_from none s clock answer = refresh clock answer

unfoldable pub get_ambient_context :
    Service → Clock → Option WeatherAnswer → Service × AmbientContext
unfolding refresh within answer_from
get_ambient_context s clock answer =
    answer_from (within clock.now s.cached_context s.cache_expiry) s clock answer

weather_themes : Condition → List String
weather_themes rainy = "cozy-indoors" ∷ "puddle-jumping" ∷ "rainbow" ∷ []
weather_themes snowy = "winter-wonderland" ∷ "snowflakes" ∷ "warm-cocoa" ∷ []
weather_themes stormy = "brave-knight" ∷ "safe-shelter" ∷ "thunder-friends" ∷ []
weather_themes clear = "stargazing" ∷ "moonlit-adventure" ∷ "fireflies" ∷ []
weather_themes _ = "dream-clouds" ∷ "imagination" ∷ []

season_themes : Season → List String
season_themes autumn = "falling-leaves" ∷ "harvest" ∷ "forest-animals" ∷ []
season_themes spring = "butterflies" ∷ "baby-animals" ∷ "flowers" ∷ []
season_themes _ = []

night_themes : TimeOfDay → List String
night_themes night = "sleepy-stars" ∷ "moon-lullaby" ∷ []
night_themes _ = []

unfoldable pub suggest_themes : AmbientContext → List String
unfolding weather_themes season_themes night_themes
suggest_themes context = take 5 (
    night_themes context.time_of_day
    ++ (weather_themes context.weather.condition ++ season_themes context.season))
