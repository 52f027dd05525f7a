-- ===== src/Companions/Collected.antt =====
-- Which companions `CheckUnlockUseCase` unlocks and returns.
use dreamweaver.Prelude.{
  ℕ, ◌≤◌, String, Option, none, some, Bool, true, false, not, ◌&&◌, ◌≡◌, refl, ap, ◌∙◌, inl, inr,
  arith, Dict, lookup, lookup-insert, is_some, any, All, List, [], ◌∷◌, leb, str_eq, eq_iff,
  if◌then◌else◌, Bool-cases,
}
use dreamweaver.Companions.{
  DreamCompanion, check_unlock, available_companions, Unlocking, blocks, unlock_one, unlock_all,
  collect, check_unlocks, unlock, with_date, start,
}

-- The test that unlocks a companion that is not unlocked yet.
abbrev pub earns : ℕ → List String → DreamCompanion → Bool
earns count blocked c = not (blocks blocked c) && leb c.unlock_threshold count

-- The date of the companion with the identifier `id`, when each of `cs` had its round.
abbrev pub date : ℕ → ℕ → List String → List DreamCompanion → String → Option ℕ → Option ℕ
date now count blocked cs id none =
    if any (λ c. str_eq c.id id && earns count blocked c) cs then some now else none
date now count blocked cs id (some at) = some at

module _ (now count : ℕ) (blocked : List String) where
  lookup-unlock_one :
      (c : DreamCompanion) (st : Unlocking) (id : String)
      → lookup id (unlock_one now count blocked c st).unlocked_by_id
        ≡ date now count blocked (c ∷ []) id (lookup id st.unlocked_by_id)
  unfolding unlock_one
  lookup-unlock_one c st id =
      ground (arith, eq_iff c.id id, lookup-insert c.id id now st.unlocked_by_id)

  lookup-unlock_all :
      (cs : List DreamCompanion) (st : Unlocking) (id : String)
      → lookup id (unlock_all now count blocked cs st).unlocked_by_id
        ≡ date now count blocked cs id (lookup id st.unlocked_by_id)
  unfolding unlock_all
  lookup-unlock_all [] st id = ground arith
  lookup-unlock_all (c ∷ cs) st id = ground (
    arith,
    lookup-unlock_all cs (unlock_one now count blocked c st) id,
    lookup-unlock_one c st id,
  )

  -- The table has what the map has.
  unlock_all-saved :
      (cs : List DreamCompanion) (st : Unlocking)
      → st.saved ≡ st.unlocked_by_id
      → (unlock_all now count blocked cs st).saved
        ≡ (unlock_all now count blocked cs st).unlocked_by_id
  unfolding unlock_all unlock_one
  unlock_all-saved [] st e = e
  unlock_all-saved (c ∷ cs) st e =
      unlock_all-saved cs (unlock_one now count blocked c st) (ground (arith, e))

  -- A date that a companion already has is kept.
  date-saved :
      (id : String) (o : Option ℕ) (at : ℕ)
      → o ≡ some at
      → date now count blocked available_companions id o ≡ some at
  date-saved id none at e = absurd (cc)
  date-saved id (some a) at e = e

  pub lookup-saved :
      (saved : Dict ℕ) (id : String)
      → lookup id (check_unlocks now count blocked saved).0
        ≡ date now count blocked available_companions id (lookup id saved)
  unfolding check_unlocks
  lookup-saved saved id =
      ap (lookup id) (unlock_all-saved available_companions (start saved) refl)
      ∙ lookup-unlock_all available_companions (start saved) id

  -- An unlocked companion stays in the table with its date.
  pub check_unlocks_keeps :
      (saved : Dict ℕ) (id : String) (at : ℕ)
      → lookup id saved ≡ some at
      → lookup id (check_unlocks now count blocked saved).0 ≡ some at
  check_unlocks_keeps saved id at e = lookup-saved saved id ∙ date-saved id (lookup id saved) at e

  -- The companions that are due, with their dates.
  abbrev pub due : DreamCompanion → Option ℕ → Option ℕ
  due c none = if leb c.unlock_threshold count then some now else none
  due c (some at) = some at

  unfoldable pub owned : Dict ℕ → List DreamCompanion → List DreamCompanion
  owned saved [] = []
  owned saved (c ∷ cs) =
      let rest = owned saved cs in
      if blocks blocked c then rest else with_date c (due c (lookup c.id saved)) rest

  -- The dates of the companion are those that are due: no other companion has its identifier.
  abbrev IsDated : DreamCompanion → Type 0
  IsDated c =
      (o : Option ℕ)
      → blocks blocked c ≡ false
      → date now count blocked available_companions c.id o ≡ due c o

  available-IsDated : All IsDated available_companions
  available-IsDated = ((λ o b. ground arith), ((λ o b. ground arith), ((λ o b. ground arith), tt)))

  collect-owned :
      (m saved : Dict ℕ) (cs : List DreamCompanion)
      → ((id : String)
          → lookup id m ≡ date now count blocked available_companions id (lookup id saved))
      → All IsDated cs
      → collect blocked m cs ≡ owned saved cs
  unfolding collect owned
  collect-owned m saved [] dates h = refl
  collect-owned m saved (c ∷ cs) dates (d, h) = elim (Bool-cases (blocks blocked c)) [
    | inl b ↦ rw b (collect-owned m saved cs dates h)
    | inr b ↦ rw (b, dates c.id, d (lookup c.id saved) b, collect-owned m saved cs dates h) refl
  ]

  -- The companions that are returned are those that are not blocked and were unlocked before, with
  -- their dates, or have their number of stories, with the date of the call.
  pub check_unlocks-owned :
      (saved : Dict ℕ)
      → (check_unlocks now count blocked saved).1 ≡ owned saved available_companions
  unfolding check_unlocks
  check_unlocks-owned saved =
      collect-owned _ saved available_companions
        (λ id. lookup-unlock_all available_companions (start saved) id) available-IsDated

  -- A companion that has earned its place has it.
  abbrev IsSettled : Dict ℕ → DreamCompanion → Type 0
  IsSettled m c = earns count blocked c ≡ true → is_some (lookup c.id m) ≡ true

  due-some :
      (c : DreamCompanion) (o : Option ℕ)
      → leb c.unlock_threshold count ≡ true
      → is_some (due c o) ≡ true
  due-some c none h = ground arith
  due-some c (some at) h = refl

  dated-IsSettled :
      (m saved : Dict ℕ) (cs : List DreamCompanion)
      → ((id : String)
          → lookup id m ≡ date now count blocked available_companions id (lookup id saved))
      → All IsDated cs
      → All (IsSettled m) cs
  dated-IsSettled m saved [] dates h = tt
  dated-IsSettled m saved (c ∷ cs) dates (d, h) = (
    (λ e.
        let free : blocks blocked c ≡ false = ground arith in
        let enough : leb c.unlock_threshold count ≡ true = ground arith in
        rw (dates c.id, d (lookup c.id saved) free) (due-some c (lookup c.id saved) enough)),
    dated-IsSettled m saved cs dates h,
  )

  settled-unlock_one :
      (later : ℕ) (c : DreamCompanion) (m : Dict ℕ)
      → IsSettled m c
      → unlock_one later count blocked c (start m) ≡ start m
  unfolding unlock_one
  settled-unlock_one later c m h = ground (arith, h)

  settled-unlock_all :
      (later : ℕ) (cs : List DreamCompanion) (m : Dict ℕ)
      → All (IsSettled m) cs
      → unlock_all later count blocked cs (start m) ≡ start m
  unfolding unlock_all
  settled-unlock_all later [] m h = refl
  settled-unlock_all later (c ∷ cs) m (s, h) =
      rw (settled-unlock_one later c m s) (settled-unlock_all later cs m h)

  -- A second call at any later time, with the same number of stories and the same blocked
  -- companions, changes nothing in the table and returns the same companions.
  pub check_unlocks_again :
      (later : ℕ) (saved : Dict ℕ)
      → (let first = check_unlocks now count blocked saved in
          check_unlocks later count blocked first.0 ≡ first)
  unfolding check_unlocks
  check_unlocks_again later saved =
      let st = unlock_all now count blocked available_companions (start saved) in
      let settled =
        dated-IsSettled st.saved saved available_companions (lookup-saved saved)
          available-IsDated in
      ap (λ (u : Unlocking). (u.saved, collect blocked u.unlocked_by_id available_companions))
        (settled-unlock_all later available_companions st.saved settled)
      ∙ ap (λ (m : Dict ℕ). (st.saved, collect blocked m available_companions))
          (unlock_all-saved available_companions (start saved) refl)

-- `checkUnlock` unlocks a companion once: when its number of stories is reached, the first call
-- unlocks it with the date of the call, and a second call, at whatever time and with whatever
-- number of stories, does nothing.
pub check_unlock_once :
    (now later count count' : ℕ) (c : DreamCompanion)
    → c.is_unlocked ≡ false
    → c.unlock_threshold ≤ count
    → (check_unlock now count c ≡ (unlock now c, true))
      × (check_unlock later count' (check_unlock now count c).0 ≡ (unlock now c, false))
unfolding check_unlock
check_unlock_once now later count count' c h k =
    let enough : leb c.unlock_threshold count ≡ true = ground arith in
    (rw (h, enough) refl, rw (h, enough) refl)
