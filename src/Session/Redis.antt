-- ===== src/Session/Redis.antt =====
-- The store in Redis (api/src/infrastructure/adapters/RedisSessionState.ts) with its keys: a session
-- has a key with its user, a key from which its user is looked up, and a place in the index of its
-- user. Keys that are set expire after a day. Redis answers every command, and a JSON text is the
-- value that it encodes, for both of the clients.
pub mod Keys
pub mod Days
pub mod Lost
pub mod Deleted
use Prim.Native.Char.{Char, code}
use Prim.Native.String
use dreamweaver.Prelude.{
  ℕ, ◌+◌, ◌*◌, String, Option, none, some, List, [], ◌∷◌, Dict, lookup, insert, erase, add, remove,
  ltb, ◌==◌, or_else, truthy, if◌then◌else◌,
}
use dreamweaver.Session.{SessionState, Patch}
use dreamweaver.Session.Store.{stamp}
use dreamweaver.Session.Lua.{update_script, patch_script, rollback_script}

-- A value that expires.
pub record Held (A : Type 0) : Type 0 where
  pub value : A
  pub expires_at : ℕ

-- The three kinds of keys have different prefixes.
pub record Redis : Type 0 where
  pub sessions : Dict (Held SessionState)
  pub lookups : Dict (Held String)
  pub indices : Dict (List String)

abbrev pub ttl_seconds : ℕ
ttl_seconds = 86400

abbrev pub held : {A : Type 0} → ℕ → A → Held A
held now a = record { value = a; expires_at = now + ttl_seconds * 1000 }

abbrev live_value : {A : Type 0} → ℕ → Option (Held A) → Option A
live_value now none = none
live_value now (some h) = if ltb now h.expires_at then some h.value else none

-- GET
unfoldable pub live : {A : Type 0} → ℕ → String → Dict (Held A) → Option A
live now key m = live_value now (lookup key m)

abbrev pub legacy_key : String → String
legacy_key session_id = String.◌++◌ "dreamweaver:session:" session_id

abbrev pub strict_key : (user_id session_id : String) → String
strict_key user_id session_id =
    String.◌++◌ "dreamweaver:session:" (String.◌++◌ user_id (String.◌++◌ ":" session_id))

abbrev pub user_index_key : String → String
user_index_key user_id = String.◌++◌ "dreamweaver:user:" (String.◌++◌ user_id ":sessions")

abbrev pub lookup_key : String → String
lookup_key session_id = String.◌++◌ "dreamweaver:lookup:" session_id

abbrev key_for : String → Option String → String
key_for session_id none = legacy_key session_id
key_for session_id (some user_id) = strict_key user_id session_id

-- The key of a session: that of its user, or else the legacy key, whether it is there or not.
unfoldable pub resolve_key : ℕ → String → Redis → String
unfolding live
resolve_key now session_id db =
    key_for session_id (truthy (live now (lookup_key session_id) db.lookups))

unfoldable pub get : ℕ → String → Redis → Option SessionState
unfolding live
get now session_id db = live now (resolve_key now session_id db) db.sessions

unfoldable pub set : ℕ → String → SessionState → Redis → Redis
unfolding live
set now session_id state db =
    let user_id = state.snapshot.user_id in
    let key = strict_key user_id session_id in
    let written = update_script 10 (live now key db.sessions) (stamp now state.snapshot) in
    let index = user_index_key user_id in
    record db {
      sessions = insert key (held now written) db.sessions;
      indices = insert index (add session_id (or_else (lookup index db.indices) [])) db.indices;
      lookups = insert (lookup_key session_id) (held now user_id) db.lookups;
    }

abbrev write : ℕ → String → Redis → SessionState → Redis
write now key db state = record db { sessions = insert key (held now state) db.sessions }

abbrev patched : ℕ → String → Redis → Option SessionState → Option Redis
patched now key db none = none
patched now key db (some state) = some (write now key db state)

-- `none` is the exception for a session that is not there.
unfoldable pub patch : ℕ → String → Patch → Redis → Option Redis
unfolding live
patch now session_id partial db =
    let key = resolve_key now session_id db in
    patched now key db (patch_script 10 now (live now key db.sessions) partial)

abbrev rolled_back : ℕ → String → Redis → Option SessionState → Redis
rolled_back now key db none = db
rolled_back now key db (some state) = write now key db state

unfoldable pub rollback : ℕ → String → ℕ → Redis → Redis
unfolding live
rollback now session_id steps db =
    let key = resolve_key now session_id db in
    rolled_back now key db (rollback_script steps (live now key db.sessions))

abbrev prepend : Char → List String → List String
prepend c [] = String.◌∷◌ c String.[] ∷ []
prepend c (p ∷ ps) = String.◌∷◌ c p ∷ ps

-- `key.split(':')`
unfoldable pub split_colons : String → List String
split_colons String.[] = "" ∷ []
split_colons (String.◌∷◌ c s) =
    let rest = split_colons s in if code c == b':' then "" ∷ rest else prepend c rest

-- `parts.length === 4 ? parts[2] : null`
abbrev user_part : List String → Option String
user_part (a ∷ b ∷ user ∷ d ∷ []) = some user
user_part _ = none

-- SREM
abbrev leave_index : String → Option String → Dict (List String) → Dict (List String)
leave_index session_id none indices = indices
leave_index session_id (some user_id) indices =
    let index = user_index_key user_id in
    insert index (remove session_id (or_else (lookup index indices) [])) indices

unfoldable pub delete : ℕ → String → Redis → Redis
delete now session_id db =
    let key = resolve_key now session_id db in
    record db {
      sessions = erase key db.sessions;
      lookups = erase (lookup_key session_id) db.lookups;
      indices = leave_index session_id (truthy (user_part (split_colons key))) db.indices;
    }
