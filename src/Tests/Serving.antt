-- ===== src/Tests/Serving.antt =====
-- Requests, links, tickets, tools, stories, companions and the weather at concrete inputs.
use dreamweaver.Prelude.{
  ℕ, min, String, Option, none, some, true, false, List, [], ◌∷◌, ◌≡◌, refl, arith, lookup, is_some,
  trim,
}
use dreamweaver.RateLimit.{Environment, get_store, validate_rate_limit_config}
use dreamweaver.RateLimit.Rates.{Request, passes, requests_of, passes_thirty}
use dreamweaver.RateLimit.Outage.{production_is_shared}
use dreamweaver.Companions.{available_companions, check_unlocks}
use dreamweaver.Companions.Collected.{owned, check_unlocks-owned}
use dreamweaver.Sharing.{SharedLinkType, story, SharedLink, Links, ShareRequest, is_valid, content}
use dreamweaver.Sharing.Races.{World, Steps, copies, overlapping_views}
use dreamweaver.Tickets.{issue, validate}
use dreamweaver.Tickets.Uses.{Call, issue_call, cleanup_call, calls, ticket_once}
use dreamweaver.Cache.{Cache}
use dreamweaver.Tools
use dreamweaver.Tools.{Services, execute}
use dreamweaver.Tools.Audit.{entry, execute_audited}
use dreamweaver.Story.{from_raw_text, full_text}
use dreamweaver.Story.Content.{has_newline, from_raw_text-full_text}
use dreamweaver.Ambient.{Service, Clock, get_ambient_context, time_text}
use dreamweaver.Ambient.Laws.{bedtime_rule-ambient}
use dreamweaver.AgentMemory.{AgentContext}
use dreamweaver.Thought.Arbiter.{ThoughtStep, bedtime_rule}

abbrev requests : List Request
requests = (5, "1.1.1.1") ∷ (6, "2.2.2.2") ∷ (6, "1.1.1.1") ∷ []

passes_thirty_example : passes "1.1.1.1" requests [] ≡ min 30 (requests_of "1.1.1.1" requests)
unfolding lookup
passes_thirty_example =
    passes_thirty 5 "1.1.1.1" requests []
      ((omega arith, omega arith), ((omega arith, omega arith), ((omega arith, omega arith), tt)))
      refl

abbrev alone : Environment
alone = record {
  node_env = "production";
  upstash_url = none;
  upstash_token = none;
  allow_in_memory = "true";
}

production_is_shared_example : alone.allow_in_memory ≡ "true"
unfolding get_store validate_rate_limit_config
production_is_shared_example = production_is_shared alone refl refl

check_unlocks-owned_example :
    (check_unlocks 9 5 ("c_rusty" ∷ []) (("c_luna", 4) ∷ [])).1
    ≡ owned 9 5 ("c_rusty" ∷ []) (("c_luna", 4) ∷ []) available_companions
check_unlocks-owned_example = check_unlocks-owned 9 5 ("c_rusty" ∷ []) (("c_luna", 4) ∷ [])

abbrev owner : SharedLinkType → String → Option String
owner type resource = some "mum"

abbrev resource : SharedLinkType → String → Option String
resource type id = some "Once upon a time"

abbrev wish : ShareRequest
wish = record {
  owner_id = "mum";
  resource_id = "r";
  type = story;
  max_views = 0;
  expires_in_days = 0;
}

-- A link with one view left.
abbrev last_view : SharedLink
last_view = record {
  id = "i";
  resource_id = "r";
  owner_id = "mum";
  type = story;
  token = "t";
  max_views = 3;
  current_views = 2;
  expires_at = 100;
  created_at = 1;
}

abbrev links : Links
links = ("t", last_view) ∷ []

overlapping_views_example :
    (links' : Links) × Steps resource
      (record { links = links; reading = []; answers = [] })
      (record {
        links = links';
        reading = [];
        answers = copies resource 2 (content story "Once upon a time");
      })
unfolding lookup is_valid
overlapping_views_example =
    overlapping_views resource 2 50 "t" links last_view "Once upon a time" refl refl refl

abbrev quiet : World resource
quiet = record { links = links; reading = []; answers = [] }

abbrev reading : World resource
reading = record { links = links; reading = ("t", lookup "t" links) ∷ []; answers = [] }

abbrev others : List (ℕ × Call)
others = (10, issue_call "b" "bob" 90) ∷ (60000, cleanup_call) ∷ []

ticket_once_example :
    let held = calls others (issue 5 "a" "ann" 90 []) in
    ((validate 80000 "a" held).1 ≡ some "ann")
    × ((validate 80001 "a" (validate 80000 "a" held).0).1 ≡ none)
ticket_once_example =
    ticket_once 5 80000 80001 90 "a" "ann" others [] (refl, (omega arith, tt)) (omega arith)

abbrev empty : Cache
empty = record { store = []; counters = [] }

from_raw_text-full_text_example :
    from_raw_text (full_text ("One." ∷ "Two." ∷ []))
    ≡ some (record { paragraphs = "One." ∷ "Two." ∷ []; chapters = []; sleep_score = 5 })
unfolding has_newline trim
from_raw_text-full_text_example =
    from_raw_text-full_text ("Two." ∷ []) "One." ((refl, refl, refl), ((refl, refl, refl), tt))

abbrev services : Services
services = record {
  zod_error = λ c. "Invalid input";
  store_error = none;
  is_monitoring = true;
  confidence = 40;
  agent_has_memory = false;
  theme_stats = some [];
  theme_stats_error = "";
  has_repository = true;
  new_id = "n";
  is_uuid = λ s. true;
  is_url = λ s. true;
  schema_error = "";
  save_error = none;
}

abbrev blank : Tools.Request
blank = record {
  session_id = "s";
  user_id = "u";
  call = Tools.save_generated_story (Tools.text "Title") (Tools.text "   ") Tools.absent;
}

abbrev world : Tools.World
world = record { memories = []; stories = []; audit = some [] }

execute_audited_example :
    let done = execute services 9 blank world in
    done.0.audit ≡ some (entry 9 blank (is_some (Tools.validate blank.call)) done.1 ∷ [])
execute_audited_example = execute_audited services 9 blank world [] refl

abbrev cold : Service
cold = record { cached_context = none; cache_expiry = none }

abbrev clock : ℕ → Clock
clock now = record { now = now; hour = 22; day = 1; month = 9 }

abbrev quest : ThoughtStep
quest = record {
  goals_considered = [];
  conflicts_identified = none;
  trade_off_made = none;
  thought = "A quest";
  action = "ADVENTURE_STORY";
  confidence = 90;
  parameters = none;
}

bedtime_rule-ambient_example :
    bedtime_rule (time_text (get_ambient_context cold (clock 1000) none).1.time_of_day) quest
    ≡ quest
bedtime_rule-ambient_example = bedtime_rule-ambient cold (clock 1000) none quest

abbrev reader : AgentContext
reader = record { user_id = some "u"; session_id = some "s" }
