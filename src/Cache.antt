-- ===== src/Cache.antt =====
-- The cache of a single instance (api/src/infrastructure/adapters/InMemoryCacheAdapter.ts). A time to
-- live of zero seconds counts as none, and an expiry of zero means that there is no expiry.
pub mod Expiry
use dreamweaver.Prelude.{
  ℕ, ◌+◌, ◌*◌, String, Option, none, some, Bool, ◌&&◌, Dict, lookup, insert, erase, ltb, ◌==◌,
  if◌then◌else◌,
}

pub record CacheItem : Type 0 where
  pub value : String
  pub expiry : ℕ

pub record Counter : Type 0 where
  pub value : ℕ
  pub expiry : ℕ

pub record Cache : Type 0 where
  pub store : Dict CacheItem
  pub counters : Dict Counter

abbrev pub is_over : ℕ → ℕ → Bool
is_over now expiry = ltb 0 expiry && ltb expiry now

-- The expiry of what is written at `now`.
abbrev pub expiry_of : ℕ → ℕ → ℕ
expiry_of now ttl_seconds = if ttl_seconds == 0 then 0 else now + ttl_seconds * 1000

abbrev get_found : ℕ → String → Cache → Option CacheItem → Cache × Option String
get_found now key c none = (c, none)
get_found now key c (some item) =
    if is_over now item.expiry
    then (record c { store = erase key c.store }, none)
    else (c, some item.value)

unfoldable pub get : ℕ → String → Cache → Cache × Option String
get now key c = get_found now key c (lookup key c.store)

unfoldable pub set : ℕ → String → String → (ttl_seconds : ℕ) → Cache → Cache
set now key value ttl_seconds c = record c {
  store = insert key (record { value = value; expiry = expiry_of now ttl_seconds }) c.store;
}

-- The counter that is counted up: a new one if there is none or it is over.
abbrev pub current : ℕ → ℕ → Option Counter → Counter
current now ttl_seconds none = record { value = 0; expiry = expiry_of now ttl_seconds }
current now ttl_seconds (some item) =
    if is_over now item.expiry
    then record { value = 0; expiry = expiry_of now ttl_seconds }
    else item

unfoldable pub increment : ℕ → String → (ttl_seconds : ℕ) → Cache → Cache × ℕ
increment now key ttl_seconds c =
    let item = current now ttl_seconds (lookup key c.counters) in
    let item' : Counter = record item { value = item.value + 1 } in
    (record c { counters = insert key item' c.counters }, item'.value)

unfoldable pub delete : String → Cache → Cache
delete key c = record { store = erase key c.store; counters = erase key c.counters }
