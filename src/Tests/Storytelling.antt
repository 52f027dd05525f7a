-- ===== src/Tests/Storytelling.antt =====
-- Story sessions (`conductStorySession` of api/src/domain/agents/BedtimeConductorAgent.ts) at
-- concrete answers of the model.
use dreamweaver.Prelude.{
  ℕ, String, none, some, Bool, true, false, [], ◌∷◌, ◌≡◌, ◌⊎◌, ◌==◌, or_else, truthy, utf16_length,
  any, str_eq,
}
use dreamweaver.Thought.Arbiter.{ThoughtStep}
use dreamweaver.Session.{SessionState}
use dreamweaver.Conductor.{get_or_init_state}
use dreamweaver.Conductor.Stores.{in_memory, in_memory-PortLaws}
use dreamweaver.Conductor.Attempts.{Reply, thought, attempt_all}
use dreamweaver.Conductor.Sessions.{
  SessionConfig, Surroundings, Session, begun_phase, conduct_story_session,
}
use dreamweaver.Conductor.Sessions.Forms.{durations, has_form}
use dreamweaver.Conductor.Sessions.Outcomes.{theme_kept, session_remembers}

abbrev moon : SessionConfig
moon = record { theme = "moon"; duration = none; child_age = some 4 }

abbrev around : Surroundings
around = record { time_of_day = some "night"; child_age = some 4; current_mood = none }

abbrev tale : ThoughtStep
tale = record {
  goals_considered = "BONDING" ∷ [];
  conflicts_identified = none;
  trade_off_made = none;
  thought = "A calm tale";
  action = "START_STORY";
  confidence = 90;
  parameters = some (("duration", "short") ∷ []);
}

abbrev well : ℕ → Reply
well n = thought tale

abbrev child : String
child = "0e37df36-f698-4f21-b8a1-6f1a4c2c1a11"

abbrev is_uuid : String → Bool
is_uuid id = utf16_length id == 36

session_remembers_example :
    let valid = has_form is_uuid (some child) moon around.current_mood in
    let before =
      (get_or_init_state in_memory 7 "s" (or_else (truthy (some child)) "anon") []).state in
    let run = conduct_story_session in_memory is_uuid 7 "s" (some child) moon around well [] in
    ((valid ≡ false) × (run ≡ none))
    ⊎ ((valid ≡ true)
        × ((done : Session in_memory.Store) × (run ≡ some done)
            × ((s : SessionState) × (in_memory.get "s" done.store ≡ some s)
                × (s.phase ≡ begun_phase before.session_start_time before.phase)
                × (s.last_suggested_theme
                    ≡ theme_kept before.last_suggested_theme "moon" (attempt_all well).ending))
            × (done.theme ≡ "moon")
            × ((done.duration ≡ none)
                ⊎ ((d : String) × (done.duration ≡ some d) × (any (str_eq d) durations ≡ true)))))
session_remembers_example =
    session_remembers in_memory in_memory-PortLaws is_uuid 7 "s" (some child) moon around well []
