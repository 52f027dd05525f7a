-- ===== src/RateLimit.antt =====
-- The limit on the requests of a client (api/src/middleware/rateLimit.ts). Times are milliseconds.
-- The answer of Upstash is a parameter.
pub mod Rates
pub mod Outage
use Prim.Native.Char.{Char, code}
use Prim.Native.String
use dreamweaver.Prelude.{
  ℕ, ◌+◌, ◌-◌, ◌*◌, ◌/◌, String, Option, none, some, Bool, true, false, not, ◌&&◌, ◌||◌, Dict,
  lookup, trim, insert, str_eq, keep, length, List, [], ◌∷◌, any, ltb, leb, ◌==◌, if◌then◌else◌,
  truthy, or_else, is_some,
}

abbrev pub window_ms : ℕ
window_ms = 60000

abbrev pub max_requests : ℕ
max_requests = 30

pub record Window : Type 0 where
  pub count : ℕ
  pub window_start : ℕ

pub record Counted : Type 0 where
  pub count : ℕ
  pub ttl : ℕ

abbrev pub Requests : Type 0
Requests = Dict Window

-- `InMemoryRateLimitStore.increment`: the record of the client, a new one or one that starts again
-- if there is none or its window is over, with one more request in it.
unfoldable pub hit : (now window : ℕ) → Option Window → Window
hit now window none = record { count = 1; window_start = now }
hit now window (some r) =
    if ltb window (now - r.window_start)
    then record { count = 1; window_start = now }
    else record r { count = r.count + 1 }

-- The records that are not much too old, once there are more than ten thousand.
unfoldable pub purge : (now window : ℕ) → Requests → Requests
purge now window m =
    if ltb 10000 (length m)
    then keep (λ k r. not (ltb (window * 2) (now - r.window_start))) m
    else m

unfoldable pub increment : (now : ℕ) → String → (window : ℕ) → Requests → Requests × Counted
unfolding hit purge
increment now key window m =
    let r = hit now window (lookup key m) in
    (
      purge now window (insert key r m),
      record { count = r.count; ttl = (r.window_start + window - now + 999) / 1000 },
    )

pub data UpstashAnswer : Type 0 where
  -- The request fails, or the response is not `ok`.
  unavailable : UpstashAnswer
  -- `results[0]?.result`
  result : Option ℕ → UpstashAnswer

-- `UpstashRateLimitStore.increment`, after the request.
unfoldable pub upstash_increment : (is_prod : Bool) → (window : ℕ) → UpstashAnswer → Counted
upstash_increment is_prod window unavailable = record {
  count = if is_prod then max_requests + 1 else 1;
  ttl = (window + 999) / 1000;
}
upstash_increment is_prod window (result n) = record {
  count = or_else n 1;
  ttl = (window + 999) / 1000;
}

-- The variables that the choice of the store reads.
pub record Environment : Type 0 where
  pub node_env : String
  pub upstash_url : Option String
  pub upstash_token : Option String
  pub allow_in_memory : String

abbrev pub is_prod : Environment → Bool
is_prod env = str_eq env.node_env "production"

abbrev pub has_upstash : Environment → Bool
has_upstash env = is_some (truthy env.upstash_url) && is_some (truthy env.upstash_token)

-- `validateRateLimitConfig`; `false` is the exception.
unfoldable pub validate_rate_limit_config : Environment → Bool
validate_rate_limit_config env =
    if not (is_prod env)
    then true
    else if not (has_upstash env)
    then str_eq env.allow_in_memory "true"
    else true

pub data StoreKind : Type 0 where
  in_memory upstash : StoreKind

-- `getStore`, where the argument is the store that was chosen before, if any. `none` is the
-- exception.
unfoldable pub get_store : Option StoreKind → Environment → Option StoreKind
unfolding validate_rate_limit_config
get_store (some store) env = some store
get_store none env =
    if validate_rate_limit_config env
    then some (if has_upstash env then upstash else in_memory)
    else none

-- `split(',')[0]`
first_hop : String → String
first_hop String.[] = String.[]
first_hop (String.◌∷◌ c s) =
    let rest = first_hop s in if code c == 44 then String.[] else String.◌∷◌ c rest

forwarded_ip : Option String → Option String
unfolding first_hop trim
forwarded_ip none = none
forwarded_ip (some s) = truthy (some (trim (first_hop s)))

unfoldable pub extract_client_ip : (String → Option String) → String
unfolding forwarded_ip
extract_client_ip header = or_else (truthy (header "x-real-ip")) (
    or_else (truthy (header "cf-connecting-ip"))
      (or_else (forwarded_ip (truthy (header "x-forwarded-for"))) "unknown"))

pub data Limit : Type 0 where
  success : Limit
  retry_after : ℕ → Limit

-- `verifyRateLimit`, after the call of the store.
unfoldable pub verify : Counted → Limit
verify c = if ltb max_requests c.count then retry_after c.ttl else success

-- `verifyRateLimit` on the store in memory.
unfoldable pub verify_in_memory : ℕ → String → Requests → Requests × Limit
unfolding increment verify
verify_in_memory now ip m = let r = increment now ip window_ms m in (r.0, verify r.1)

-- The middleware: the requests that are passed on, and those that get status 429.
pub data Handled : Type 0 where
  next : Handled
  too_many_requests : ℕ → Handled

unfoldable pub middleware : ℕ → (String → Option String) → Requests → Requests × Handled
unfolding verify_in_memory extract_client_ip
middleware now header m =
    let r = verify_in_memory now (extract_client_ip header) m in
    (r.0, elim r.1 [ success ↦ next | retry_after s ↦ too_many_requests s ])
