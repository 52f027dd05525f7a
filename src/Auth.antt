-- ===== src/Auth.antt =====
-- Who makes a request (api/src/middleware/auth.ts). The answer of the service that knows the tokens
-- is a parameter.
pub mod Users
use Prim.Native.String
use dreamweaver.Prelude.{
  ℕ, String, Option, none, some, Bool, true, false, not, ◌&&◌, List, [], ◌∷◌, str_eq, truthy,
  either, is_some, if◌then◌else◌,
}
use dreamweaver.Generation.Texts.{after}

-- `s.split(' ')`
unfoldable pub split_spaces : String → List String
split_spaces String.[] = "" ∷ []
split_spaces (String.◌∷◌ c s) =
    let rest = split_spaces s in
    if str_eq (String.◌∷◌ c String.[]) " "
    then "" ∷ rest
    else elim rest [ [] ↦ String.◌∷◌ c String.[] ∷ [] | p ∷ ps ↦ String.◌∷◌ c p ∷ ps ]

-- `parts[1]`; a header that starts with "Bearer " has a second part.
abbrev second_part : List String → String
second_part [] = ""
second_part (p ∷ []) = ""
second_part (p ∷ q ∷ ps) = q

-- The token of a header that starts with "Bearer ".
unfoldable pub bearer_token : Option String → Option String
unfolding split_spaces
bearer_token none = none
bearer_token (some header) =
    if is_some (after "Bearer " header) then some (second_part (split_spaces header)) else none

pub record User : Type 0 where
  pub id : String
  pub email : Option String
  pub role : Option String

abbrev pub demo_user : User
demo_user = record {
  id = "00000000-0000-0000-0000-000000000001";
  email = some "demo@dreamweaver.ai";
  role = some "authenticated";
}

abbrev pub load_test_user : User
load_test_user = record {
  id = "load_test_user_123";
  email = some "tester@example.com";
  role = some "authenticated";
}

-- What the middleware reads of the environment: of the process, of the context, and the configuration.
pub record Environment : Type 0 where
  pub is_production : Bool
  pub load_test_auth : Bool
  pub process_url : Option String
  pub process_key : Option String
  pub context_url : Option String
  pub context_key : Option String
  pub config_url : Option String
  pub config_key : Option String

-- The answer of `getUser`: an exception, an error or no user, or a user.
pub data Verdict : Type 0 where
  throws : Verdict
  unknown : Verdict
  known : (user : User) → Verdict

-- The request is answered with a status, or goes on with a user and an access token.
pub data Passage : Type 0 where
  denied : (status : ℕ) → Passage
  passed : (user : User) (access_token : Option String) → Passage

abbrev pub judged : String → Verdict → Passage
judged token throws = denied 500
judged token unknown = denied 401
judged token (known user) = passed user (some token)

-- `finalUrl` and `finalKey` are both there.
unfoldable pub is_configured : Environment → Bool
is_configured e =
    is_some (either (either e.process_url e.context_url) e.config_url)
    && is_some (either (either e.process_key e.context_key) e.config_key)

-- From the check of the credentials on.
abbrev pub check_token : Environment → (String → Verdict) → String → Passage
check_token e get_user token = if is_configured e then judged token (get_user token) else denied 500

-- The token of a load test, outside production and with the flag.
unfoldable pub is_load_test : Environment → String → Bool
is_load_test e token =
    str_eq token "mock_load_test_token" && not e.is_production && e.load_test_auth

abbrev pub admit : Environment → (String → Verdict) → Bool → Option String → Passage
admit e get_user demo none = denied 401
admit e get_user true (some token) = passed demo_user none
admit e get_user false (some token) =
    if is_load_test e token then passed load_test_user none else check_token e get_user token

-- `authMiddleware`, with the headers `Authorization` and `x-demo-mode`, until the handler runs.
unfoldable pub auth_middleware :
    Environment → (String → Verdict) → (authorization demo_mode : Option String) → Passage
unfolding bearer_token is_configured is_load_test
auth_middleware e get_user authorization demo_mode =
    admit e get_user (str_eq (elim demo_mode [ none ↦ "" | some d ↦ d ]) "true")
      (bearer_token authorization)
