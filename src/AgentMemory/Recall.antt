-- ===== src/AgentMemory/Recall.antt =====
-- What `retrieve` finds of what was stored.
use dreamweaver.Prelude.{
  ℕ, zero, suc, String, Option, none, some, Bool, true, false, ◌≡◌, refl, ap, arith, inl, inr, List,
  [], ◌∷◌, ◌++◌, All, take, truthy, eq_iff, Bool-cases,
}
use dreamweaver.AgentMemory.{
  is_of_session, episodic, MemoryRecord, AgentContext, matches, select, retrieve, store,
}

All-take :
    (P : MemoryRecord → Type 0) (n : ℕ) (ms : List MemoryRecord) → All P ms → All P (take n ms)
All-take P zero ms h = tt
All-take P (suc n) [] h = tt
All-take P (suc n) (m ∷ ms) (p, h) = (p, All-take P n ms h)

of_session :
    (s : String) (o session : Option String)
    → o ≡ some s
    → is_of_session (some episodic) o session ≡ true
    → session ≡ some s
of_session s none session e h = absurd (cc)
of_session s (some t) none e h = absurd (cc)
of_session s (some t) (some u) e h = ground (arith, eq_iff u t, e, h)

select-sessions :
    (query s : String) (context : AgentContext) (ms : List MemoryRecord)
    → truthy context.session_id ≡ some s
    → All (λ m. m.session ≡ some s) (select (matches query context (some episodic)) ms)
unfolding matches
select-sessions query s context [] e = tt
select-sessions query s context (m ∷ ms) e =
    let rest = select-sessions query s context ms e in
    elim (Bool-cases (matches query context (some episodic) m)) [
      | inl b ↦
          let kept : is_of_session (some episodic) (truthy context.session_id) m.session ≡ true =
            ground (arith, b) in
          rw b (of_session s (truthy context.session_id) m.session e kept, rest)
      | inr b ↦ rw b rest
    ]

-- Episodic memories of a session are never those of another one, whatever the query and the limit.
pub retrieve-session :
    (query s : String) (context : AgentContext) (limit : ℕ) (ms : List MemoryRecord)
    → truthy context.session_id ≡ some s
    → All (λ m. m.session ≡ some s) (retrieve query context (some episodic) limit ms)
unfolding retrieve
retrieve-session query s context limit ms e =
    All-take _ limit _ (select-sessions query s context ms e)

select-concat :
    (p : MemoryRecord → Bool) (ms : List MemoryRecord) (m : MemoryRecord)
    → p m ≡ false
    → select p (ms ++ m ∷ []) ≡ select p ms
select-concat p [] m e = rw e refl
select-concat p (n ∷ ms) m e = rw (select-concat p ms m e) refl

-- An episodic memory that is stored without metadata, as the tool for saving memories does, is found
-- in no session, whatever session it was stored in.
pub stored_not_found :
    (id : String) (now : ℕ) (text s query : String) (stored read : AgentContext) (limit : ℕ)
    (ms : List MemoryRecord)
    → truthy read.session_id ≡ some s
    → retrieve query read (some episodic) limit (store id now text episodic stored none ms)
      ≡ retrieve query read (some episodic) limit ms
unfolding retrieve store matches
stored_not_found id now text s query stored read limit ms e =
    ap (take limit) (select-concat (matches query read (some episodic)) ms _ (rw e refl))
