-- ===== src/Tools.antt =====
-- The calls of tools in a live session
-- (api/src/application/use-cases/Live/ToolExecutionRouter.ts). What the memory, the sleep sentinel,
-- the conductor and the repository of the stories answer are parameters, and so are the texts of the
-- errors of zod. The audit log, if there is one, does not fail.
pub mod Audit
use dreamweaver.Prelude.{
  ℕ, String, Option, none, some, Bool, true, false, ◌&&◌, List, [], ◌∷◌, map, ltb, leb, str_eq,
  truthy, or_else, is_some, if◌then◌else◌, utf16_length,
}
use dreamweaver.Conductor.Suggestions.{ThemeStat, Suggestion, generate_suggestions}
use dreamweaver.Story.{StoryContent, from_raw_text, Story, completed, create}

pub data MemoryType : Type 0 where
  preference episodic : MemoryType

-- A field of the arguments as it comes in.
pub data Field : Type 0 where
  absent : Field
  other : Field
  text : String → Field

-- The arguments of the request, not validated.
pub data Call : Type 0 where
  save_memory : (content memory_type : Field) → Call
  -- Whether there are arguments.
  check_sleep_status : Bool → Call
  suggest_theme : Bool → Call
  save_generated_story : (title content theme : Field) → Call
  unknown_tool : String → Call

-- The arguments after the checks.
pub data Checked : Type 0 where
  memory : String → MemoryType → Checked
  sleep_status : Checked
  suggestions : Checked
  generated_story : (title content : String) → Option String → Checked

pub record Request : Type 0 where
  pub session_id : String
  pub user_id : String
  pub call : Call

pub data Result : Type 0 where
  null : Result
  memory_saved : Result
  sleep : (is_monitoring : Bool) → (confidence : ℕ) → (asleep : Bool) → Result
  suggested : List (String × String) → Result
  story_saved : String → Result

pub record Response : Type 0 where
  pub result : Result
  pub error : Option String

pub record Memory : Type 0 where
  pub content : String
  pub type : MemoryType
  pub user_id : String
  pub session_id : String

pub record AuditEntry : Type 0 where
  pub request : Request
  pub allowed : Bool
  pub result : Result
  pub error : Option String
  pub occurred_at : ℕ

-- What the tools change.
pub record World : Type 0 where
  pub memories : List Memory
  pub stories : List Story
  -- `none` if there is no audit log.
  pub audit : Option (List AuditEntry)

-- What the code calls, in one execution.
pub record Services : Type 0 where
  pub zod_error : Call → String
  -- The message of the error, if the call fails.
  pub store_error : Option String
  pub is_monitoring : Bool
  -- In hundredths.
  pub confidence : ℕ
  pub agent_has_memory : Bool
  -- The statistics of the agent's memory, or the message of the error.
  pub theme_stats : Option (List ThemeStat)
  pub theme_stats_error : String
  pub has_repository : Bool
  pub new_id : String
  pub is_uuid : String → Bool
  pub is_url : String → Bool
  pub schema_error : String
  pub save_error : Option String

-- `z.string().min(1).max(n)`
abbrev sized : ℕ → Field → Option String
sized n (text s) = if leb 1 (utf16_length s) && leb (utf16_length s) n then some s else none
sized n absent = none
sized n other = none

abbrev memory_type_of : Field → Option MemoryType
memory_type_of (text s) =
    if str_eq s "PREFERENCE"
    then some preference
    else if str_eq s "EPISODIC"
    then some episodic
    else none
memory_type_of absent = none
memory_type_of other = none

-- `z.string().min(1).max(100).optional()`: `none` is a failure.
abbrev optional_theme : Field → Option (Option String)
optional_theme absent = some none
optional_theme other = none
optional_theme (text s) = elim (sized 100 (text s)) [ none ↦ none | some t ↦ some (some t) ]

abbrev memory_args : Option String → Option MemoryType → Option Checked
memory_args (some content) (some type) = some (memory content type)
memory_args _ _ = none

abbrev story_args : Option String → Option String → Option (Option String) → Option Checked
story_args (some title) (some content) (some theme) = some (generated_story title content theme)
story_args _ _ _ = none

-- The `switch` on the name of the tool, with the schemas; `none` is an error.
unfoldable pub validate : Call → Option Checked
validate (save_memory content type) = memory_args (sized 4000 content) (memory_type_of type)
validate (check_sleep_status has_args) = if has_args then none else some sleep_status
validate (suggest_theme has_args) = if has_args then none else some suggestions
validate (save_generated_story title content theme) =
    story_args (sized 200 title) (sized 20000 content) (optional_theme theme)
validate (unknown_tool name) = none

abbrev pub error_of : Services → Call → String
error_of services (unknown_tool name) = "Unknown tool"
error_of services call = services.zod_error call

abbrev pub ok : Result → Response
ok result = record { result = result; error = none }

abbrev pub failure : String → Response
failure message = record { result = null; error = some message }

abbrev save_story : Services → Option String → Story → World → World × Response
save_story services none story w =
    (record w { stories = story ∷ w.stories }, ok (story_saved story.id))
save_story services (some message) story w = (w, failure message)

abbrev checked_story : Services → Option Story → World → World × Response
checked_story services none w = (w, failure services.schema_error)
checked_story services (some story) w = save_story services services.save_error story w

abbrev story_of :
    Services → ℕ → Request → String → Option String → Option StoryContent → World → World × Response
story_of services now r title theme none w = (w, failure "Story must have at least one paragraph")
story_of services now r title theme (some content) w =
    checked_story services
      (create services.is_uuid services.is_url (record {
        id = services.new_id;
        title = title;
        content = content;
        theme = or_else theme "Live Session";
        owner_id = r.user_id;
        status = completed;
        created_at = now;
        generated_at = some now;
        audio_url = none;
      }))
      w

abbrev store_memory : Option String → Memory → World → World × Response
store_memory none m w = (record w { memories = m ∷ w.memories }, ok memory_saved)
store_memory (some message) m w = (w, failure message)

-- The handlers, with what they throw as a response with an error.
unfoldable pub handle : Services → ℕ → Request → Checked → World → World × Response
unfolding from_raw_text create generate_suggestions
handle services now r (memory content type) w =
    store_memory services.store_error
      (record { content = content; type = type; user_id = r.user_id; session_id = r.session_id }) w
handle services now r sleep_status w =
    (w, ok (sleep services.is_monitoring services.confidence (ltb 80 services.confidence)))
handle services now r suggestions w = elim services.theme_stats [
  | none ↦ (w, failure services.theme_stats_error)
  | some stats ↦
      let found = generate_suggestions now services.agent_has_memory (some r.user_id) stats in
      (w, ok (suggested (map (λ (s : Suggestion). (s.theme, s.reasoning)) found)))
]
handle services now r (generated_story title content theme) w =
    if services.has_repository
    then story_of services now r title theme (from_raw_text content) w
    else (w, failure "Persistence not enabled.")

-- `auditLog?.write`
abbrev pub write : ℕ → Request → Bool → Response → World → World
write now r allowed response w = record w {
  audit = elim w.audit [
    | none ↦ none
    | some entries ↦ some (
        record {
          request = r;
          allowed = allowed;
          result = response.result;
          error = response.error;
          occurred_at = now;
        }
        ∷ entries)
  ];
}

abbrev execute_checked : Services → ℕ → Request → Option Checked → World → World × Response
execute_checked services now r none w =
    let response = failure (error_of services r.call) in (write now r false response w, response)
execute_checked services now r (some checked) w =
    let handled = handle services now r checked w in
    (write now r true handled.1 handled.0, handled.1)

unfoldable pub execute : Services → ℕ → Request → World → World × Response
unfolding validate handle
execute services now r w = execute_checked services now r (validate r.call) w
