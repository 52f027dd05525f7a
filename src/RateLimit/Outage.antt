-- ===== src/RateLimit/Outage.antt =====
-- What the limit does without Upstash, and which address it counts for.
use dreamweaver.Prelude.{
  ℕ, ◌≤◌, String, Option, none, some, Bool, true, false, ◌≡◌, ◌≢◌, ◌↔◌, ◌⊎◌, arith, or_else, truthy,
  eq_iff,
}
use dreamweaver.RateLimit.{
  UpstashAnswer, unavailable, result, upstash_increment, Environment, is_prod,
  validate_rate_limit_config, in_memory, get_store, extract_client_ip, success, verify,
}

-- With Upstash, a request passes exactly if Upstash answers with a count of at most thirty, an answer
-- without a count included, or if it does not answer and this is not production.
pub upstash_passes :
    (production : Bool) (window : ℕ) (answer : UpstashAnswer)
    → (verify (upstash_increment production window answer) ≡ success) ↔ (
        ((answer ≡ unavailable) × (production ≡ false))
        ⊎ ((n : Option ℕ) × (answer ≡ result n) × (or_else n 1 ≤ 30)))
unfolding verify upstash_increment
upstash_passes true window unavailable = ground arith
upstash_passes false window unavailable = ground arith
upstash_passes production window (result none) = ground arith
upstash_passes production window (result (some n)) = ground arith

-- In production, the requests are counted in memory only if that was allowed, whatever the other
-- variables are.
pub production_is_shared :
    (env : Environment)
    → is_prod env ≡ true
    → get_store none env ≡ some in_memory
    → env.allow_in_memory ≡ "true"
unfolding get_store validate_rate_limit_config
production_is_shared env prod e = ground (arith, eq_iff env.allow_in_memory "true")

-- If `x-real-ip` or `cf-connecting-ip` is set and not empty, the address of the client does not
-- depend on any other header, `x-forwarded-for` among them.
pub extract_client_ip_trusted :
    (h h' : String → Option String)
    → h "x-real-ip" ≡ h' "x-real-ip"
    → h "cf-connecting-ip" ≡ h' "cf-connecting-ip"
    → (truthy (h "x-real-ip") ≢ none) ⊎ (truthy (h "cf-connecting-ip") ≢ none)
    → extract_client_ip h ≡ extract_client_ip h'
unfolding extract_client_ip
extract_client_ip_trusted h h' e e' set = ground (arith, e, e')
