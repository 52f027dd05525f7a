-- ===== src/Conductor/Turns.antt =====
-- A turn of the conversation (`processTurn` of BedtimeConductorAgent.ts). The outcome of the call of
-- the model and its time in milliseconds are parameters; what is reported to the agent's memory is
-- returned. The check of the context (AgentContextSchema in domain/schemas/AgentSchemas.ts) takes the
-- test for a UUID of the schema library as a parameter. What the turn looks up for the prompt, and
-- the texts of the trace, are left out.
pub mod Counts
pub mod Endings
use Prim.Native.Char.{Char, code}
use Prim.Native.String
use dreamweaver.Prelude.{
  ℕ, suc, ◌+◌, String, Option, none, some, Bool, true, false, not, ◌&&◌, ◌||◌, List, [], ◌∷◌, any,
  Dict, lookup, insert, to_lower, truthy, or_else, str_eq, leb, ◌==◌, if◌then◌else◌,
}
use dreamweaver.Thought.Arbiter.{ThoughtStep, parameter}
use dreamweaver.Session.{Value, number, texts, Snapshot, SessionState}
use dreamweaver.Quality.{ucr, latency_ms, Measure, check_metric, is_critical, completion_rate}
use dreamweaver.Conductor.{SessionPort, Opened, get_or_init_state, commit}
use dreamweaver.Conductor.Cues.{Sentiment, positive, negative, Outcome}
use dreamweaver.Conductor.Attempts.{Reply, thought, failed}

-- `\w`
abbrev is_word_char : Char → Bool
is_word_char c =
    let n = code c in
    (leb 48 n && leb n 57) || (leb 65 n && leb n 90) || (leb 97 n && leb n 122) || n == 95

-- Whether the text begins with the word, and the word ends there.
begins : String → String → Bool
begins String.[] String.[] = true
begins String.[] (String.◌∷◌ c s) = not (is_word_char c)
begins (String.◌∷◌ d w) String.[] = false
begins (String.◌∷◌ d w) (String.◌∷◌ c s) = let rest = begins w s in (code d == code c) && rest

-- The match of `\bword\b`; `inside` says whether the character before is a word character.
has_word_from : Bool → String → String → Bool
unfolding begins
has_word_from inside w String.[] = false
has_word_from inside w (String.◌∷◌ c s) =
    (not inside && begins w (String.◌∷◌ c s)) || has_word_from (is_word_char c) w s

abbrev has_one_of : List String → String → Bool
has_one_of words text = any (λ w. has_word_from false w text) words

unfoldable pub rejects : String → Bool
unfolding has_word_from to_lower
rejects message =
    has_one_of ("no" ∷ "hate" ∷ "dislike" ∷ "stop" ∷ "bad" ∷ "don't" ∷ []) (to_lower message)

unfoldable pub accepts : String → Bool
unfolding has_word_from to_lower
accepts message =
    has_one_of ("yes" ∷ "love" ∷ "like" ∷ "good" ∷ "great" ∷ "ok" ∷ "okay" ∷ []) (to_lower message)

-- What the message says of the theme that was suggested last.
pub record Learned : Type 0 where
  pub theme : Option String
  pub outcomes : List Outcome
  pub rejected_theme : Option String
  pub interventions : ℕ

abbrev track : String → Sentiment → String → List Outcome
track theme sentiment user = record { theme = theme; sentiment = sentiment; user_id = user } ∷ []

abbrev pub learn_of : String → Option String → Option String → String → Learned
learn_of user kept none message = record {
  theme = kept;
  outcomes = [];
  rejected_theme = none;
  interventions = 0;
}
learn_of user kept (some theme) message =
    if rejects message
    then record {
      theme = none;
      outcomes = track theme negative user;
      rejected_theme = some theme;
      interventions = 1;
    }
    else if accepts message
    then record {
      theme = none;
      outcomes = track theme positive user;
      rejected_theme = none;
      interventions = 0;
    }
    else record { theme = kept; outcomes = []; rejected_theme = none; interventions = 0 }

-- `memory` says whether the agent has one.
unfoldable pub learn : Bool → String → Option String → String → Learned
learn memory user last message = learn_of user last (if memory then truthy last else none) message

-- `(context[key] as number) || 0`; the keys that are read hold no lists.
abbrev pub number_of : Option Value → ℕ
number_of none = 0
number_of (some (number n)) = n
number_of (some (texts ts)) = 0

abbrev pub counter : String → Snapshot → ℕ
counter key s = number_of (lookup key s.context)

abbrev pub with_context : Dict Value → SessionState → SessionState
with_context context s = record s { snapshot = record (s.snapshot) { context = context } }

-- The assignments of the first part of a turn.
unfoldable pub count_turn : Learned → Snapshot → Snapshot
count_turn l s = record s {
  last_suggested_theme = l.theme;
  context =
      insert "interventions" (number (counter "interventions" s + l.interventions))
        (insert "interactions" (number (counter "interactions" s + 1)) s.context);
}

pub data TurnEnding : Type 0 where
  replied : (reply : String) → ThoughtStep → TurnEnding
  emergency : TurnEnding

pub record Turn (S : Type 0) : Type 0 where
  pub store : S
  pub outcomes : List Outcome
  -- The winner and the loser of `trackPreferencePair`.
  pub preference : Option (String × String)
  pub ending : TurnEnding

-- The reply: a parameter, or the thought, or a default.
unfoldable pub reply_of : ThoughtStep → String
reply_of t = or_else (truthy (parameter "reply" t)) (or_else (truthy (some t.thought)) "I'm here.")

-- The theme of a suggestion.
unfoldable pub suggestion : ThoughtStep → Option String
suggestion t = if str_eq t.action "SUGGEST" then parameter "theme" t else none

abbrev pub preferred : Bool → String → Option String → Option (String × String)
preferred true theme (some rejected) = some (theme, rejected)
preferred true theme none = none
preferred false theme _ = none

-- `checkMetric` throws, if there is a gate.
unfoldable pub too_many_interventions : Bool → Snapshot → Bool
too_many_interventions gate s =
    gate
    && is_critical
        (check_metric ucr (completion_rate (counter "interventions" s) (counter "interactions" s)))

unfoldable pub too_slow : Bool → ℕ → Bool
too_slow gate ms = gate && is_critical (check_metric latency_ms (record { num = ms; den = 1 }))

module _ (port : SessionPort) where
  open port use {Store, get, set, put, shares}

  -- `state.context[key] = value`: the object `context` is the one in the store even where the state
  -- is a copy, since copies are shallow.
  abbrev pub assign_context : Bool → Option SessionState → String → Dict Value → Store → Store
  assign_context true (some stored) id context store = put id (with_context context stored) store
  assign_context true none id context store = store
  assign_context false _ id context store = store

  -- The first part of a turn, up to the first `set`.
  unfoldable pub note_turn : ℕ → String → Learned → Opened Store → Store
  unfolding count_turn commit
  note_turn now id l opened =
      let s = count_turn l opened.state.snapshot in
      let noted = assign_context shares (get id opened.store) id s.context opened.store in
      commit port now id (record opened { store = noted }) s

  abbrev pub suggest : ℕ → String → String → Option String → Store → Store
  suggest now id user none store = store
  suggest now id user (some theme) store =
      let opened = get_or_init_state port now id user store in
      commit port now id opened
        (record (opened.state.snapshot) { last_suggested_theme = some theme })

  abbrev pub stop : List Outcome → Store → Turn Store
  stop outcomes store = record {
    store = store;
    outcomes = outcomes;
    preference = none;
    ending = emergency;
  }

  abbrev pub conclude : ℕ → String → String → Bool → Bool → ℕ → Learned → Reply → Store → Turn Store
  conclude now id user memory gate ms l (failed f) store = stop l.outcomes store
  conclude now id user memory gate ms l (thought t) store =
      if too_slow gate ms then stop l.outcomes store else record {
        store = suggest now id user (suggestion t) store;
        outcomes = l.outcomes;
        preference = elim (suggestion t) [
          | none ↦ none
          | some theme ↦ preferred memory theme l.rejected_theme
        ];
        ending = replied (reply_of t) t;
      }

  -- A turn with a context that was checked; `gate` says whether the agent has a quality gate.
  unfoldable pub take_turn :
      ℕ → String → String → (memory gate : Bool) → String → (ms : ℕ) → Reply → Store → Turn Store
  unfolding get_or_init_state commit count_turn learn note_turn
  take_turn now id user memory gate message ms reply store =
      let opened = get_or_init_state port now id user store in
      let l = learn memory user opened.state.last_suggested_theme message in
      let noted = note_turn now id l opened in
      if too_many_interventions gate (count_turn l opened.state.snapshot)
      then stop l.outcomes noted
      else conclude now id user memory gate ms l reply noted

  -- `processTurn`; `none` is the exception of the check of the context, before anything is done.
  unfoldable pub process_turn :
      (String → Bool)
      → ℕ
      → String
      → String
      → (memory gate : Bool) → String
      → (ms : ℕ) → Reply
      → Store
      → Option (Turn Store)
  unfolding take_turn
  process_turn is_uuid now id user memory gate message ms reply store =
      if is_uuid user then some (take_turn now id user memory gate message ms reply store) else none
