-- ===== src/RateLimit/Rates.antt =====
-- How many requests of a client pass `verifyRateLimit` on the store in memory.
use dreamweaver.Prelude.{
  ℕ, suc, ◌+◌, ◌-◌, ◌*◌, ◌≤◌, min, String, Option, none, some, true, not, ◌≡◌, refl, ◌∙◌, inl, inr,
  arith, lookup, insert, lookup-insert, lookup-keep, lookup-keep-none, List, [], ◌∷◌, All, ltb,
  str_eq, eq_iff, if◌then◌else◌, Bool-cases,
}
use mathlib.Core.Path.{subst}
use dreamweaver.RateLimit.{
  Window, Requests, hit, purge, increment, Limit, success, retry_after, verify, verify_in_memory,
  window_ms,
}

-- A request: its time and its client.
abbrev pub Request : Type 0
Request = ℕ × String

abbrev passed : Limit → ℕ
passed success = 1
passed (retry_after s) = 0

-- How many of the requests of the client `ip` pass, and how many there are.
pub passes : String → List Request → Requests → ℕ
unfolding verify_in_memory
passes ip [] m = 0
passes ip ((now, k) ∷ rs) m =
    let r = verify_in_memory now k m in
    let rest = passes ip rs r.0 in if str_eq k ip then passed r.1 + rest else rest

pub requests_of : String → List Request → ℕ
requests_of ip [] = 0
requests_of ip ((now, k) ∷ rs) =
    let rest = requests_of ip rs in if str_eq k ip then suc rest else rest

-- A time in the minute that begins at `t`.
abbrev pub IsIn : ℕ → Request → Type 0
IsIn t r = (t ≤ r.0) × (r.0 ≤ t + window_ms)

-- The client has `n` requests in the minute that begins at `t`, and its record says so.
abbrev IsCounted : ℕ → ℕ → Option Window → Type 0
IsCounted t n none = n ≡ 0
IsCounted t n (some r) = (r.count ≡ n) × (t ≤ r.window_start) × (r.window_start ≤ t + window_ms)

-- The purge spares the records of the minute.
lookup-purge :
    (t n now : ℕ) (k : String) (m : Requests) (o : Option Window)
    → now ≤ t + window_ms
    → lookup k m ≡ o
    → IsCounted t n o
    → lookup k (purge now window_ms m) ≡ o
unfolding purge
lookup-purge t n now k m none h e c =
    ground (arith, lookup-keep-none (λ j r. not (ltb (window_ms * 2) (now - r.window_start))) k m e)
lookup-purge t n now k m (some w) h e (_, late, _) =
    let spared : not (ltb (window_ms * 2) (now - w.window_start)) ≡ true = ground arith in
    ground
      (arith, lookup-keep (λ j r. not (ltb (window_ms * 2) (now - r.window_start))) k m w e spared)

hit-IsCounted :
    (t n now : ℕ) (o : Option Window)
    → t ≤ now
    → now ≤ t + window_ms
    → IsCounted t n o
    → IsCounted t (suc n) (some (hit now window_ms o)) × ((hit now window_ms o).count ≡ suc n)
unfolding hit
hit-IsCounted t n now none h h' c = ground arith
hit-IsCounted t n now (some r) h h' c = ground arith

-- What a request does to the record of the client `ip`.
increment-IsCounted :
    (t n now : ℕ) (k ip : String) (m : Requests)
    → t ≤ now
    → now ≤ t + window_ms
    → IsCounted t n (lookup ip m)
    → IsCounted t (if str_eq k ip then suc n else n) (lookup ip (increment now k window_ms m).0)
unfolding increment
increment-IsCounted t n now k ip m h h' c =
    let r = hit now window_ms (lookup k m) in
    let m' = insert k r m in
    elim (Bool-cases (str_eq k ip)) [
      | inl e ↦
          let same : k ≡ ip = ground (arith, eq_iff k ip) in
          let found : lookup ip m' ≡ some r = lookup-insert k ip r m ∙ rw e refl in
          let counted = (hit-IsCounted t n now (lookup k m) h h' (rw same c)).0 in
          let kept = lookup-purge t (suc n) now ip m' (some r) h' found counted in
          rw (e, kept) counted
      | inr e ↦
          let found : lookup ip m' ≡ lookup ip m = lookup-insert k ip r m ∙ rw e refl in
          let kept = lookup-purge t n now ip m' (lookup ip m) h' found c in rw (e, kept) c
    ]

-- A request of the client passes if fewer than thirty came before it.
passed-count :
    (t n now : ℕ) (ip : String) (m : Requests)
    → t ≤ now
    → now ≤ t + window_ms
    → IsCounted t n (lookup ip m)
    → passed (verify_in_memory now ip m).1 ≡ (if ltb n 30 then 1 else 0)
unfolding verify_in_memory verify increment
passed-count t n now ip m h h' c = ground (arith, (hit-IsCounted t n now (lookup ip m) h h' c).1)

passes-from :
    (t n : ℕ) (ip : String) (rs : List Request) (m : Requests)
    → All (IsIn t) rs
    → IsCounted t n (lookup ip m)
    → passes ip rs m ≡ min (30 - n) (requests_of ip rs)
unfolding passes requests_of
passes-from t n ip [] m h c = ground arith
passes-from t n ip ((now, k) ∷ rs) m ((l, u), h) c =
    let m' = (verify_in_memory now k m).0 in
    let next : IsCounted t (if str_eq k ip then suc n else n) (lookup ip m') =
      unfold verify_in_memory in increment-IsCounted t n now k ip m l u c in
    elim (Bool-cases (str_eq k ip)) [
      | inl e ↦
          let same : k ≡ ip = ground (arith, eq_iff k ip) in
          let rest =
            passes-from t (suc n) ip rs m' h
              (subst (λ b. IsCounted t (if b then suc n else n) (lookup ip m')) e next) in
          let this : passed (verify_in_memory now k m).1 ≡ (if ltb n 30 then 1 else 0) =
            rw same (passed-count t n now ip m l u c) in
          rw (e, this, rest) (ground arith)
      | inr e ↦
          let rest =
            passes-from t n ip rs m' h
              (subst (λ b. IsCounted t (if b then suc n else n) (lookup ip m')) e next) in
          rw (e, rest) refl
    ]

-- For every series of requests within one minute, in any order and whatever other clients ask
-- for in between, of a client that had no record before its first thirty requests pass and no
-- more: the number that pass is its number of requests or thirty, whichever is less.
pub passes_thirty :
    (t : ℕ) (ip : String) (rs : List Request) (m : Requests)
    → All (IsIn t) rs
    → lookup ip m ≡ none
    → passes ip rs m ≡ min 30 (requests_of ip rs)
passes_thirty t ip rs m h e = passes-from t 0 ip rs m h (rw e refl)
