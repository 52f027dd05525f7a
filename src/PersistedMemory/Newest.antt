-- ===== src/PersistedMemory/Newest.antt =====
-- What is found of a memory that was stored.
use dreamweaver.Prelude.{
  ℕ, suc, ◌<◌, String, Option, Bool, true, false, List, [], ◌∷◌, ◌++◌, ◌≡◌, refl, ◌∙◌, ap, arith,
  take, All, Bool-cases, inl, inr, if◌then◌else◌,
}
use dreamweaver.AgentMemory.{MemoryRecord, MemoryType, AgentContext, matches, select}
use dreamweaver.PersistedMemory.{Database, store_call, changed, place, newest_first, retrieve}

abbrev pub IsBefore : ℕ → MemoryRecord → Type 0
IsBefore now m = m.timestamp < now

select-append :
    (p : MemoryRecord → Bool) (xs ys : List MemoryRecord)
    → select p (xs ++ ys) ≡ select p xs ++ select p ys
select-append p [] ys = refl
select-append p (x ∷ xs) ys = elim (Bool-cases (p x)) [
  | inl takes ↦ rw takes (ap (λ l. x ∷ l) (select-append p xs ys))
  | inr skips ↦ rw skips (select-append p xs ys)
]

select-All :
    (now : ℕ) (p : MemoryRecord → Bool) (xs : List MemoryRecord)
    → All (IsBefore now) xs
    → All (IsBefore now) (select p xs)
select-All now p [] early = tt
select-All now p (x ∷ xs) (e, early) =
    elim (p x) as (λ (b : Bool). All (IsBefore now) (if b then x ∷ select p xs else select p xs)) [
      | true ↦ (e, select-All now p xs early)
      | false ↦ select-All now p xs early
    ]

newest_first-snoc :
    (xs : List MemoryRecord) (m : MemoryRecord)
    → All (IsBefore m.timestamp) xs
    → newest_first (xs ++ m ∷ []) ≡ m ∷ newest_first xs
unfolding newest_first
newest_first-snoc [] m early = refl
newest_first-snoc (x ∷ xs) m (e, early) =
    ap (place x) (newest_first-snoc xs m early) ∙ ground (arith, e)

-- A memory that is stored after all others is found first by every query that it matches, before
-- what was found until then.
pub stored_found_first :
    (now : ℕ) (id content query : String) (type : MemoryType) (session : Option String)
    (context : AgentContext) (wanted : Option MemoryType) (limit : ℕ) (d : Database)
    → All (IsBefore now) d.memories
    → matches query context wanted (record {
      id = id;
      type = type;
      content = content;
      confidence = 100;
      timestamp = now;
      session = session;
    })
      ≡ true
    → retrieve query context wanted (suc limit) (changed now (store_call id content type session) d)
      ≡ record {
        id = id;
        type = type;
        content = content;
        confidence = 100;
        timestamp = now;
        session = session;
      }
        ∷ retrieve query context wanted limit d
unfolding retrieve changed
stored_found_first now id content query type session context wanted limit d early found =
    let m : MemoryRecord = record {
      id = id;
      type = type;
      content = content;
      confidence = 100;
      timestamp = now;
      session = session;
    } in
    let p = matches query context wanted in
    ap (λ l. take (suc limit) (newest_first l)) (select-append p d.memories (m ∷ []))
    ∙ rw found (
        ap (take (suc limit))
          (newest_first-snoc (select p d.memories) m (select-All now p d.memories early)))
