-- ===== src/Session/Redis/Lost.antt =====
-- A patch prolongs the session but not the key from which its user is looked up.
use dreamweaver.Prelude.{
  ℕ, ◌+◌, ◌≤◌, ◌<◌, String, none, some, false, ◌≡◌, refl, ◌∙◌, arith, ltb, lt→ltb, str_eq, eq_refl,
}
use dreamweaver.Session.{SessionState, Patch}
use dreamweaver.Session.Lua.{patch_script}
use dreamweaver.Session.Redis.{
  Redis, live, resolve_key, get, set, patch, write, legacy_key, strict_key,
}
use dreamweaver.Session.Redis.Keys.{has_colon, strict_key-legacy_key}
use dreamweaver.Session.Redis.Days.{day, written, live-insert, live-set, resolve_key-set}

patch_script-some :
    (max now : ℕ) (state : SessionState) (partial : Patch)
    → (next : SessionState) × (patch_script max now (some state) partial ≡ some next)
unfolding patch_script
patch_script-some max now state partial = (_, refl)

resolve_key-write :
    (now later : ℕ) (id key : String) (db : Redis) (state : SessionState)
    → resolve_key later id (write now key db state) ≡ resolve_key later id db
unfolding resolve_key
resolve_key-write now later id key db state = refl

module _ (t0 t1 t2 : ℕ) (id : String) (state : SessionState) (partial : Patch) (db : Redis)
    (user : str_eq state.snapshot.user_id "" ≡ false) (plain : has_colon id ≡ false) where
  -- A patch within a day after the session was set is accepted.
  patch-set :
      t1 < t0 + day
      → (next : SessionState) × (patch t1 id partial (set t0 id state db)
          ≡ some (write t1 (strict_key state.snapshot.user_id id) (set t0 id state db) next))
  unfolding patch
  patch-set early =
      let key = strict_key state.snapshot.user_id id in
      let now = lt→ltb t1 (t0 + day) early in
      let next = patch_script-some 10 t1 (written t0 id state db) partial in
      let found : live t1 key (set t0 id state db).sessions ≡ some (written t0 id state db) =
        live-set t0 t1 id key state db ∙ rw (eq_refl key, now) refl in
      (next.0, rw (resolve_key-set t0 t1 id state db user) (rw now (rw (found, next.1) refl)))

  -- A session that is set and is patched within a day is not found a day after it was set, although the
  -- patched state is still in Redis under the key with its user for a day after the patch: the
  -- user of the session is no longer looked up. (Nothing is under the legacy key.)
  pub patched_session_lost :
      t1 < t0 + day
      → t0 + day ≤ t2
      → t2 < t1 + day
      → live t2 (legacy_key id) db.sessions ≡ none
      → (next : SessionState) × (db' : Redis) × (patch t1 id partial (set t0 id state db)
          ≡ some db')
        × (get t2 id db' ≡ none)
        × (live t2 (strict_key state.snapshot.user_id id) db'.sessions ≡ some next)
  unfolding get
  patched_session_lost early late kept none_legacy =
      let key = strict_key state.snapshot.user_id id in
      let db1 = set t0 id state db in
      let (next, accepted) = patch-set early in
      let db2 = write t1 key db1 next in
      let over : ltb t2 (t0 + day) ≡ false = ground arith in
      let unknown : resolve_key t2 id db2 ≡ legacy_key id =
        resolve_key-write t1 t2 id key db1 next
        ∙ resolve_key-set t0 t2 id state db user
        ∙ rw over refl in
      let other = strict_key-legacy_key state.snapshot.user_id id id plain in
      let under : live t2 (legacy_key id) db2.sessions ≡ none =
        live-insert t1 t2 key (legacy_key id) next db1.sessions
        ∙ rw other (live-set t0 t2 id (legacy_key id) state db ∙ rw other none_legacy) in
      let there : live t2 key db2.sessions ≡ some next =
        live-insert t1 t2 key key next db1.sessions
        ∙ rw (eq_refl key, lt→ltb t2 (t1 + day) kept) refl in
      (next, db2, accepted, rw unknown under, there)
