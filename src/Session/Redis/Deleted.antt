-- ===== src/Session/Redis/Deleted.antt =====
-- What `delete` leaves of a session in Redis.
use Prim.Native.String
use text.Mathlib.TextLemmas.{nil-append, cons-append, append_assoc}
use dreamweaver.Prelude.{
  ℕ, ◌+◌, ◌<◌, String, none, false, List, [], ◌∷◌, ◌≡◌, refl, ◌∙◌, ap, arith, lookup,
  lookup-insert_self, lookup-erase, erase, lt→ltb, any, remove, str_eq, eq_refl, or_else,
  if◌then◌else◌, Bool-cases, inl, inr,
}
use dreamweaver.Session.{SessionState}
use dreamweaver.Session.Redis.{
  Redis, Held, live, resolve_key, get, set, delete, legacy_key, strict_key, lookup_key,
  user_index_key, split_colons,
}
use dreamweaver.Session.Redis.Keys.{has_colon, colon, colon_append, strict_key-legacy_key}
use dreamweaver.Session.Redis.Days.{day, live-set, resolve_key-set, resolve_key-unknown}

split_colons-plain : (s : String) → has_colon s ≡ false → split_colons s ≡ s ∷ []
unfolding split_colons
split_colons-plain String.[] h = refl
split_colons-plain (String.◌∷◌ c s) h = ground (arith, split_colons-plain s)

split_colons-append :
    (u s : String)
    → has_colon u ≡ false
    → split_colons (String.◌++◌ u (String.◌∷◌ colon s)) ≡ u ∷ split_colons s
unfolding split_colons
split_colons-append String.[] s h = rw nil-append refl
split_colons-append (String.◌∷◌ c u) s h = rw cons-append (ground (arith, split_colons-append u s))

remove-any : (id : String) (ids : List String) → any (str_eq id) (remove id ids) ≡ false
remove-any id [] = refl
remove-any id (j ∷ js) = ground (arith, remove-any id js)

prefix_lem :
    (s : String)
    → String.◌++◌ "dreamweaver:session:" s
      ≡ String.◌++◌ "dreamweaver" (String.◌∷◌ colon (String.◌++◌ "session" (String.◌∷◌ colon s)))
prefix_lem s =
    append_assoc "dreamweaver" ":session:" s
    ∙ ap (String.◌++◌ "dreamweaver") (
        cons-append colon "session:" s
        ∙ ap (String.◌∷◌ colon)
            (append_assoc "session" ":" s ∙ ap (String.◌++◌ "session") (colon_append s)))

-- The parts of a key with a user.
split_colons-strict :
    (u i : String)
    → has_colon u ≡ false
    → has_colon i ≡ false
    → split_colons (strict_key u i) ≡ "dreamweaver" ∷ "session" ∷ u ∷ i ∷ []
split_colons-strict u i pu pi =
    rw (prefix_lem (String.◌++◌ u (String.◌++◌ ":" i)), colon_append i)
      (split_colons-append "dreamweaver" _ refl
        ∙ ap (◌∷◌ "dreamweaver") (
            split_colons-append "session" _ refl
            ∙ ap (◌∷◌ "session")
                (split_colons-append u i pu ∙ ap (◌∷◌ u) (split_colons-plain i pi))))

live-erase :
    {A : Type 0} (later : ℕ) (key read : String) (m : List (String × Held A))
    → live later read (erase key m) ≡ (if str_eq key read then none else live later read m)
unfolding live
live-erase later key read m = elim (Bool-cases (str_eq key read)) [
  | inl same ↦ rw (lookup-erase key read m, same) refl
  | inr other ↦ rw (lookup-erase key read m, other) refl
]

module _ (t0 t1 : ℕ) (id : String) (state : SessionState) (db : Redis)
    (user : str_eq state.snapshot.user_id "" ≡ false) (plain : has_colon id ≡ false)
    (early : t1 < t0 + day) where
  -- The key that is deleted.
  resolve_key-early : resolve_key t1 id (set t0 id state db) ≡ strict_key state.snapshot.user_id id
  resolve_key-early = resolve_key-set t0 t1 id state db user ∙ rw (lt→ltb t1 (t0 + day) early) refl

  delete-unknown : (t2 : ℕ) → resolve_key t2 id (delete t1 id (set t0 id state db)) ≡ legacy_key id
  unfolding delete
  delete-unknown t2 = resolve_key-unknown t2 id _ (
      live-erase t2 (lookup_key id) (lookup_key id) (set t0 id state db).lookups
      ∙ rw (eq_refl (lookup_key id)) refl)

  delete-live :
      (t2 : ℕ)
      → live t2 (legacy_key id) (delete t1 id (set t0 id state db)).sessions
        ≡ live t2 (legacy_key id) db.sessions
  unfolding delete
  delete-live t2 =
      let key = strict_key state.snapshot.user_id id in
      let other = strict_key-legacy_key state.snapshot.user_id id id plain in
      rw resolve_key-early (
        live-erase t2 key (legacy_key id) (set t0 id state db).sessions
        ∙ rw other (live-set t0 t2 id (legacy_key id) state db ∙ rw other refl))

  delete-index :
      has_colon state.snapshot.user_id ≡ false
      → any (str_eq id) (
          or_else
            (lookup
              (user_index_key state.snapshot.user_id)
              (delete t1 id (set t0 id state db)).indices)
            [])
        ≡ false
  unfolding delete
  delete-index pu =
      let user_id = state.snapshot.user_id in
      let indices = (set t0 id state db).indices in
      let index = user_index_key user_id in
      rw (resolve_key-early, split_colons-strict user_id id pu plain)
        (rw user (
          rw (lookup-insert_self index (remove id (or_else (lookup index indices) [])) indices)
            (remove-any id (or_else (lookup index indices) []))))

-- A session that is deleted within a day after it was set is not found any more, unless there is
-- something under its legacy key, and is not in the index of its user.
pub get-delete :
    (t0 t1 t2 : ℕ) (id : String) (state : SessionState) (db : Redis)
    → str_eq state.snapshot.user_id "" ≡ false
    → has_colon state.snapshot.user_id ≡ false
    → has_colon id ≡ false
    → t1 < t0 + day
    → (get t2 id (delete t1 id (set t0 id state db)) ≡ live t2 (legacy_key id) db.sessions)
      × (any (str_eq id) (
            or_else
              (lookup
                (user_index_key state.snapshot.user_id)
                (delete t1 id (set t0 id state db)).indices)
              [])
          ≡ false)
unfolding get
get-delete t0 t1 t2 id state db user pu plain early = (
  rw (delete-unknown t0 t1 id state db user plain early t2)
      (delete-live t0 t1 id state db user plain early t2),
  delete-index t0 t1 id state db user plain early pu,
)
