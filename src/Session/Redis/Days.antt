-- ===== src/Session/Redis/Days.antt =====
-- How long a session in Redis is found, and by whom.
use Prim.Native.String
use dreamweaver.Prelude.{
  ℕ, ◌+◌, ◌*◌, ◌<◌, String, Option, none, some, false, List, ◌≡◌, refl, ◌∙◌, insert, lookup-insert,
  ltb, lt→ltb, str_eq, eq_refl, truthy, if◌then◌else◌, Bool-cases, inl, inr,
}
use dreamweaver.Session.{SessionState}
use dreamweaver.Session.Store.{stamp}
use dreamweaver.Session.Lua.{update_script}
use dreamweaver.Session.Redis.{
  key_for, Redis, Held, held, live, resolve_key, get, set, legacy_key, strict_key, lookup_key,
}
use dreamweaver.Session.Redis.Keys.{
  has_colon, strict_key-strict_key, strict_key-legacy_key, lookup_key-lookup_key, plain-strict,
}

-- A day, in milliseconds.
abbrev pub day : ℕ
day = 86400 * 1000

-- The state that `set` writes.
abbrev pub written : ℕ → String → SessionState → Redis → SessionState
written now id state db =
    update_script 10 (live now (strict_key state.snapshot.user_id id) db.sessions)
      (stamp now state.snapshot)

pub live-insert :
    {A : Type 0} (now later : ℕ) (key read : String) (a : A) (m : List (String × Held A))
    → live later read (insert key (held now a) m) ≡ (
        if str_eq key read
        then (if ltb later (now + day) then some a else none)
        else live later read m)
unfolding live
live-insert now later key read a m = elim (Bool-cases (str_eq key read)) [
  | inl same ↦ rw (lookup-insert key read (held now a) m, same) refl
  | inr other ↦ rw (lookup-insert key read (held now a) m, other) refl
]

-- The key of a session that was set: its user is known for a day.
pub resolve_key-set :
    (now later : ℕ) (id : String) (state : SessionState) (db : Redis)
    → str_eq state.snapshot.user_id "" ≡ false
    → resolve_key later id (set now id state db)
      ≡ (if ltb later (now + day) then strict_key state.snapshot.user_id id else legacy_key id)
unfolding resolve_key set
resolve_key-set now later id state db user =
    rw (live-insert now later (lookup_key id) (lookup_key id) state.snapshot.user_id db.lookups) (
      rw (eq_refl (lookup_key id)) (elim (Bool-cases (ltb later (now + day))) [
        | inl early ↦ rw early (rw user refl)
        | inr late ↦ rw late refl
      ]))

resolve_key-set_other :
    (now later : ℕ) (id j : String) (state : SessionState) (db : Redis)
    → str_eq id j ≡ false
    → resolve_key later j (set now id state db) ≡ resolve_key later j db
unfolding resolve_key set
resolve_key-set_other now later id j state db other =
    rw (live-insert now later (lookup_key id) (lookup_key j) state.snapshot.user_id db.lookups)
      (rw (lookup_key-lookup_key id j other) refl)

-- What is read under a key after a session is set.
pub live-set :
    (now later : ℕ) (id key : String) (state : SessionState) (db : Redis)
    → live later key (set now id state db).sessions ≡ (
        if str_eq (strict_key state.snapshot.user_id id) key
        then (if ltb later (now + day) then some (written now id state db) else none)
        else live later key db.sessions)
unfolding set
live-set now later id key state db =
    live-insert now later (strict_key state.snapshot.user_id id) key (written now id state db)
      db.sessions

-- A session that has a user, one whose identifier is not empty, and whose own identifier has no colon,
-- is found for a day after it is set, as it was written; then the legacy key is read again.
pub get-set :
    (now later : ℕ) (id : String) (state : SessionState) (db : Redis)
    → str_eq state.snapshot.user_id "" ≡ false
    → has_colon id ≡ false
    → get later id (set now id state db) ≡ (
        if ltb later (now + day)
        then some (written now id state db)
        else live later (legacy_key id) db.sessions)
unfolding get
get-set now later id state db user plain =
    let user_id = state.snapshot.user_id in
    rw (resolve_key-set now later id state db user) (elim (Bool-cases (ltb later (now + day))) [
      | inl early ↦ rw early (
          live-set now later id (strict_key user_id id) state db
          ∙ rw (eq_refl (strict_key user_id id), early) refl)
      | inr late ↦ rw late (
          live-set now later id (legacy_key id) state db
          ∙ rw (strict_key-legacy_key user_id id id plain) refl)
    ])

-- Keys of another session are other keys.
abbrev IsOtherKey : String → String → Type 0
IsOtherKey id key = (user : String) → str_eq (strict_key user id) key ≡ false

resolve_key-other :
    (now : ℕ) (id j : String) (db : Redis)
    → has_colon id ≡ false
    → has_colon j ≡ false
    → str_eq id j ≡ false
    → IsOtherKey id (resolve_key now j db)
unfolding resolve_key
resolve_key-other now id j db ci cj other user = go (truthy (live now (lookup_key j) db.lookups))
  where
    go : (found : Option String) → str_eq (strict_key user id) (key_for j found) ≡ false
    go none = strict_key-legacy_key user id j cj
    go (some v) = strict_key-strict_key user v id j ci cj other

-- Setting a session does not change what is read of another one, at any time, if there is no colon
-- in their identifiers.
pub get-set_other :
    (now later : ℕ) (id j : String) (state : SessionState) (db : Redis)
    → has_colon id ≡ false
    → has_colon j ≡ false
    → str_eq id j ≡ false
    → get later j (set now id state db) ≡ get later j db
unfolding get
get-set_other now later id j state db ci cj other =
    let key = resolve_key later j db in
    rw (resolve_key-set_other now later id j state db other) (
      live-set now later id key state db
      ∙ rw (resolve_key-other later id j db ci cj other state.snapshot.user_id) refl)

pub resolve_key-unknown :
    (now : ℕ) (id : String) (db : Redis)
    → live now (lookup_key id) db.lookups ≡ none
    → resolve_key now id db ≡ legacy_key id
unfolding resolve_key
resolve_key-unknown now id db unknown = rw unknown refl

-- Whoever asks for the identifier that is made of a user and a session, with a colon between them,
-- gets the session of that user, if no user is looked up for this identifier.
pub get-foreign :
    (now later : ℕ) (id : String) (state : SessionState) (db : Redis)
    → later < now + day
    → has_colon id ≡ false
    → live later (lookup_key (String.◌++◌ state.snapshot.user_id (String.◌++◌ ":" id))) db.lookups
      ≡ none
    → get later (String.◌++◌ state.snapshot.user_id (String.◌++◌ ":" id)) (set now id state db)
      ≡ some (written now id state db)
unfolding get
get-foreign now later id state db early plain unknown =
    let user_id = state.snapshot.user_id in
    let asked = String.◌++◌ user_id (String.◌++◌ ":" id) in
    let key : resolve_key later asked (set now id state db) ≡ strict_key user_id id =
      resolve_key-set_other now later id asked state db (plain-strict user_id id plain)
      ∙ resolve_key-unknown later asked db unknown in
    rw key (
      live-set now later id (strict_key user_id id) state db
      ∙ rw (eq_refl (strict_key user_id id), lt→ltb later (now + day) early) refl)
