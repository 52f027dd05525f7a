-- ===== src/Auth/Users.antt =====
-- The user that a request goes on with.
use dreamweaver.Prelude.{
  String, Option, none, some, Bool, true, false, ◌≡◌, ◌≢◌, eq_refl, refl, ◌⊎◌, inl, inr, str_eq,
  arith, eq_iff, ap,
}
use dreamweaver.Auth.{
  Environment, Verdict, User, known, passed, auth_middleware, bearer_token, demo_user, is_load_test,
  judged, admit,
}

judged-passed :
    (token : String) (v : Verdict) (user : User) (access : Option String)
    → judged token v ≡ passed user access
    → (v ≡ known user) × (access ≡ some token)
judged-passed token v user access goes = ground arith

asks_for_demo :
    (demo_mode : Option String)
    → str_eq (elim demo_mode [ none ↦ "" | some d ↦ d ]) "true" ≡ true
    → demo_mode ≡ some "true"
asks_for_demo none e = ground (arith, e)
asks_for_demo (some d) e = ap some ((eq_iff d "true").0 e)

admit-passed :
    (e : Environment) (get_user : String → Verdict) (demo : Bool) (t : Option String) (user : User)
    (access : Option String)
    → e.is_production ≡ true
    → admit e get_user demo t ≡ passed user access
    → (token : String) × (t ≡ some token)
      × (((demo ≡ false) × (get_user token ≡ known user) × (access ≡ some token))
          ⊎ ((demo ≡ true) × (user ≡ demo_user) × (access ≡ none)))
unfolding is_load_test
admit-passed e get_user demo none user access production goes = ("", ground arith, ground arith)
admit-passed e get_user true (some token) user access production goes = (token, refl, ground arith)
admit-passed e get_user false (some token) user access production goes = (token, refl, ground arith)

-- In production, a request that goes on has a token. Without the header for the demo, it goes on as the
-- user that the service knows by this token, and with this token. With the header, it goes on as the
-- demo user, whatever its token is, and without a token for the database.
pub passed_is_known :
    (e : Environment) (get_user : String → Verdict) (authorization demo_mode : Option String)
    (user : User) (access : Option String)
    → e.is_production ≡ true
    → auth_middleware e get_user authorization demo_mode ≡ passed user access
    → (token : String) × (bearer_token authorization ≡ some token)
      × (((demo_mode ≢ some "true") × (get_user token ≡ known user) × (access ≡ some token))
          ⊎ ((demo_mode ≡ some "true") × (user ≡ demo_user) × (access ≡ none)))
unfolding auth_middleware is_load_test
passed_is_known e get_user authorization demo_mode user access production goes =
    let (token, is_token, is_user) =
      admit-passed e get_user (str_eq (elim demo_mode [ none ↦ "" | some d ↦ d ]) "true")
        (bearer_token authorization) user access production goes in
    (
      token,
      is_token,
      elim is_user [
        | inl (d, k, t) ↦ inl (λ asks. cc (d, asks, eq_refl "true"), k, t)
        | inr (d, u, t) ↦ inr (asks_for_demo demo_mode d, u, t)
      ],
    )
