-- ===== src/Sentinel.antt =====
-- The sleep sentinel (api/src/domain/agents/SleepSentinelAgent.ts, and
-- api/src/application/use-cases/ManageSleepCycleUseCase.ts). Volume, variance and confidence are in
-- units of 0.0001, in which every constant of the code is a whole number. The volume and the variance
-- of a chunk and the analysis of the breathing are computed in floating point and are parameters.
pub mod Runs
pub mod Cues
pub mod Breaths
use dreamweaver.Prelude.{
  ℕ, zero, suc, ◌+◌, ◌-◌, ◌*◌, ◌/◌, min, max, String, Option, none, some, Bool, true, false, not,
  ◌&&◌, List, [], ◌∷◌, ◌++◌, length, ltb, leb, truthy, or_else, if◌then◌else◌,
}

pub record Breathing : Type 0 where
  pub is_stable : Bool
  pub frequency_hz : Option ℕ
  pub strength : Option ℕ

-- The rate of the envelope is 16000 divided by the samples of the last chunk that was not empty: at
-- first 320, for 50 Hz.
pub record Sentinel : Type 0 where
  pub is_monitoring : Bool
  pub confidence : ℕ
  pub silence_counter : ℕ
  pub live_session_id : Option String
  pub live_user_id : Option String
  pub live_trace_id : Option String
  pub last_cue_at_ms : ℕ
  pub envelope_rms : List ℕ
  pub last_chunk_samples : ℕ
  pub latest_breathing : Option Breathing
  pub samples_since_analysis : ℕ

abbrev pub fresh : Sentinel
fresh = record {
  is_monitoring = false;
  confidence = 0;
  silence_counter = 0;
  live_session_id = none;
  live_user_id = none;
  live_trace_id = none;
  last_cue_at_ms = 0;
  envelope_rms = [];
  last_chunk_samples = 320;
  latest_breathing = none;
  samples_since_analysis = 0;
}

unfoldable pub monitor_live_session :
    (session_id : String) (user_id trace_id : Option String) → Sentinel → Sentinel
monitor_live_session session_id user_id trace_id s = record s {
  is_monitoring = true;
  live_session_id = some session_id;
  live_user_id = truthy user_id;
  live_trace_id = truthy trace_id;
}

pub record Chunk : Type 0 where
  pub samples : ℕ
  pub rms : ℕ
  pub variance : ℕ

-- What the sentinel publishes.
pub data Cue : Type 0 where
  breathing silence : Cue

pub record SleepCue : Type 0 where
  pub at : ℕ
  pub session_id : String
  pub user_id : String
  pub trace_id : Option String
  pub confidence : ℕ
  pub cue : Cue

-- The loop that drops the oldest samples.
unfoldable pub shift_to : ℕ → List ℕ → List ℕ
shift_to limit [] = []
shift_to limit (x ∷ xs) =
    let rest = shift_to limit xs in if ltb limit (suc (length xs)) then rest else x ∷ xs

-- `Math.max(64, Math.floor(sampleRateHz * 16))`
abbrev pub max_samples : (chunk_samples : ℕ) → ℕ
max_samples chunk_samples = max 64 (16000 * 16 / chunk_samples)

-- `Math.max(16, Math.floor(sampleRateHz))`
abbrev pub analysis_interval : (chunk_samples : ℕ) → ℕ
analysis_interval chunk_samples = max 16 (16000 / chunk_samples)

abbrev rate_of : ℕ → ℕ → ℕ
rate_of last zero = last
rate_of last (suc n) = suc n

module _ (analyze : List ℕ → ℕ → Breathing) where
  analyze_if : Bool → Sentinel → Sentinel
  analyze_if false s = s
  analyze_if true s = record s {
    samples_since_analysis = 0;
    latest_breathing = some (analyze s.envelope_rms s.last_chunk_samples);
  }

  unfoldable pub observe_envelope : (rms samples : ℕ) → Sentinel → Sentinel
  unfolding shift_to analyze_if
  observe_envelope rms samples s =
      let rate = rate_of s.last_chunk_samples samples in
      let kept = shift_to (max_samples rate) (s.envelope_rms ++ rms ∷ []) in
      let due =
        leb 256 (length kept) && leb (analysis_interval rate) (s.samples_since_analysis + 1) in
      analyze_if due (record s {
        last_chunk_samples = rate;
        envelope_rms = kept;
        samples_since_analysis = s.samples_since_analysis + 1;
      })

-- The first rule: quiet chunks raise the confidence, the more the longer the silence is.
unfoldable pub weigh_silence : Bool → Sentinel → Sentinel
weigh_silence true s = record s {
  silence_counter = s.silence_counter + 1;
  confidence = min 10000 (s.confidence + 100 + min 40 (2 * (s.silence_counter + 1)));
}
weigh_silence false s = record s { silence_counter = 0; confidence = s.confidence - 500 }

-- The second rule.
unfoldable pub weigh_variance : (quiet stable loud : Bool) → Sentinel → Sentinel
weigh_variance quiet stable loud s =
    if quiet && (stable && ltb 10 s.silence_counter)
    then record s { confidence = min 10000 (s.confidence + 200) }
    else if not stable && loud
    then record s { confidence = s.confidence - 1000 }
    else s

abbrev pub breathes : Option Breathing → Bool
breathes none = false
breathes (some b) = b.is_stable

-- The third rule.
unfoldable pub weigh_breathing : Bool → Sentinel → Sentinel
weigh_breathing quiet s =
    if quiet && (breathes s.latest_breathing && ltb 20 s.silence_counter)
    then record s { confidence = min 10000 (s.confidence + 200) }
    else s

unfoldable pub weigh : (volume variance : ℕ) → Sentinel → Sentinel
unfolding weigh_silence weigh_variance weigh_breathing
weigh volume variance s =
    let quiet = ltb volume 500 in
    weigh_breathing quiet
      (weigh_variance quiet (ltb variance 100) (ltb 1000 volume) (weigh_silence quiet s))

-- The test before a cue is published.
abbrev pub is_due : ℕ → Sentinel → Bool
is_due now s = ltb 8500 s.confidence && ltb 30000 (now - s.last_cue_at_ms)

abbrev pub cue_of : ℕ → Sentinel → SleepCue
cue_of now s = record {
  at = now;
  session_id = or_else (truthy s.live_session_id) "unknown";
  user_id = or_else (truthy s.live_user_id) "unknown";
  trace_id = truthy s.live_trace_id;
  confidence = s.confidence;
  cue = if breathes s.latest_breathing then breathing else silence;
}

-- `updateConfidenceFromAudio` up to the call of `publish`, and the cue that is published.
unfoldable pub hear :
    (analyze : List ℕ → ℕ → Breathing) (now : ℕ) → Chunk → Sentinel → Sentinel × Option SleepCue
unfolding observe_envelope weigh
hear analyze now c s =
    let s' = weigh c.rms c.variance (observe_envelope analyze c.rms c.samples s) in
    (s', if is_due now s' then some (cue_of now s') else none)

-- What follows when `publish` has returned: `now` is the time before the call.
unfoldable pub settle : (now : ℕ) → Sentinel → Sentinel
settle now s = record s { confidence = 8000; last_cue_at_ms = now }

-- `onInterruption`
unfoldable pub interrupt : Sentinel → Sentinel
interrupt s = record s { silence_counter = 0; confidence = s.confidence - 3000 }

pub data CycleStatus : Type 0 where
  monitoring action_taken idle : CycleStatus

-- The status that the use case returns, with the confidence.
unfoldable pub manage_sleep_cycle : Sentinel → CycleStatus × ℕ
manage_sleep_cycle s = (if ltb 8000 s.confidence then action_taken else monitoring, s.confidence)
