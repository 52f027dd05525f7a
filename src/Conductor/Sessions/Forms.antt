-- ===== src/Conductor/Sessions/Forms.antt =====
-- The form of the input of a story session, written out (api/src/domain/schemas/AgentSchemas.ts).
use dreamweaver.Prelude.{
  String, Option, none, some, Bool, true, false, not, ◌&&◌, ◌||◌, List, [], ◌∷◌, any, leb, or_else,
  str_eq, ◌≡◌, refl, arith,
}
use dreamweaver.Conductor.Sessions.{SessionConfig, is_duration, valid_config, valid_context}

abbrev pub is_one_of : List String → Option String → Bool
is_one_of names none = true
is_one_of names (some name) = any (str_eq name) names

abbrev pub durations : List String
durations = "short" ∷ "medium" ∷ "long" ∷ []

-- The input of a session has the form that it should: there is a theme; and the duration, the age, the
-- user and the mood are each missing or one of the durations, at most 18, a UUID, and one of the moods.
abbrev pub has_form :
    (is_uuid : String → Bool) (user : Option String) (config : SessionConfig) (mood : Option String)
    → Bool
has_form is_uuid user config mood =
    not (str_eq config.theme "")
    && is_one_of durations config.duration
    && leb (or_else config.child_age 0) 18
    && elim user as (λ _. Bool) [ none ↦ true | some u ↦ is_uuid u ]
    && is_one_of ("energetic" ∷ "calm" ∷ "tired" ∷ "fussy" ∷ []) mood

or_false : (b : Bool) → (b || false) ≡ b
or_false true = refl
or_false false = refl

pub is_duration_lem : (d : String) → is_duration d ≡ any (str_eq d) durations
is_duration_lem d = rw (or_false (str_eq d "long")) refl

pub valid_lem :
    (is_uuid : String → Bool) (user : Option String) (config : SessionConfig) (mood : Option String)
    → (valid_config config && valid_context is_uuid user mood) ≡ has_form is_uuid user config mood
unfolding valid_config valid_context
valid_lem is_uuid user config mood = ground arith
