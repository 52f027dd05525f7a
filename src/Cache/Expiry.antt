-- ===== src/Cache/Expiry.antt =====
-- How long the cache keeps a value and a counter.
use dreamweaver.Prelude.{
  ℕ, suc, ◌+◌, ◌*◌, ◌≤◌, String, none, some, false, ◌≡◌, refl, arith, lookup, insert,
  lookup-insert_self, List, [], ◌∷◌, All, ltb, ◌==◌, if◌then◌else◌,
}
use dreamweaver.Cache.{Counter, Cache, is_over, expiry_of, get, set, increment}

-- A value that is written is read back until its time to live is over, the last millisecond included,
-- and for ever if it has none; later it is not read.
pub get-set :
    (now later : ℕ) (key value : String) (ttl : ℕ) (c : Cache)
    → now ≤ later
    → (get later key (set now key value ttl c)).1
      ≡ (if ttl == 0 then some value else if ltb (now + ttl * 1000) later then none else some value)
unfolding get set
get-set now later key value ttl c h = rw (lookup-insert_self) (ground (arith, h))

-- The result of each of a series of increments of one key.
pub increments : String → ℕ → List ℕ → Cache → List ℕ
unfolding increment
increments key ttl [] c = []
increments key ttl (now ∷ times) c =
    let r = increment now key ttl c in r.1 ∷ increments key ttl times r.0

pub count_from : ℕ → List ℕ → List ℕ
count_from n [] = []
count_from n (now ∷ times) = n ∷ count_from (suc n) times

increments-running :
    (key : String) (ttl : ℕ) (times : List ℕ) (c : Cache) (item : Counter)
    → lookup key c.counters ≡ some item
    → All (λ t. is_over t item.expiry ≡ false) times
    → increments key ttl times c ≡ count_from (suc item.value) times
unfolding increments count_from increment
increments-running key ttl [] c item e h = refl
increments-running key ttl (now ∷ times) c item e (early, h) =
    let item' : Counter = record item { value = item.value + 1 } in
    let c' = record c { counters = insert key item' c.counters } in
    let rest =
      increments-running key ttl times c' item' (lookup-insert_self key item' c.counters) h in
    let up : item.value + 1 ≡ suc item.value = omega arith in rw (e, early, rest, up) refl

alive :
    (start ttl : ℕ) (times : List ℕ)
    → All (λ t. t ≤ start + ttl * 1000) times
    → All (λ t. is_over t (expiry_of start ttl) ≡ false) times
alive start ttl [] h = tt
alive start ttl (t ∷ times) (k, h) = (ground arith, alive start ttl times h)

-- A counter that is not there counts the increments 1, 2, 3 and so on, the first one included, while
-- its time to live is not over.
pub increments_count :
    (start : ℕ) (key : String) (ttl : ℕ) (times : List ℕ) (c : Cache)
    → lookup key c.counters ≡ none
    → All (λ t. t ≤ start + ttl * 1000) times
    → increments key ttl (start ∷ times) c ≡ count_from 1 (start ∷ times)
unfolding increments count_from increment
increments_count start key ttl times c e h =
    let item : Counter = record { value = 1; expiry = expiry_of start ttl } in
    let c' = record c { counters = insert key item c.counters } in
    let rest =
      increments-running key ttl times c' item (lookup-insert_self key item c.counters)
        (alive start ttl times h) in
    rw (e, rest) refl
