-- ===== src/Tickets/Uses.antt =====
-- A ticket is good once, until it expires.
use dreamweaver.Prelude.{
  ℕ, ◌+◌, ◌*◌, ◌≤◌, ◌<◌, String, none, some, false, not, ◌≡◌, refl, ◌∙◌, arith, lookup, insert,
  erase, lookup-insert, lookup-keep, lookup-insert_self, lookup-erase, lookup-erase_self, List, [],
  ◌∷◌, All, ltb, str_eq,
}
use dreamweaver.Tickets.{Ticket, Tickets, issue, validate, cleanup}

-- The calls of the store by others: tickets with other identifiers are issued and validated, and at
-- any time the store is cleaned up.
pub data Call : Type 0 where
  issue_call : (id user : String) (ttl : ℕ) → Call
  validate_call : (id : String) → Call
  cleanup_call : Call

pub call : ℕ → Call → Tickets → Tickets
unfolding issue validate cleanup
call now (issue_call id user ttl) m = issue now id user ttl m
call now (validate_call id) m = (validate now id m).0
call now cleanup_call m = cleanup now m

pub calls : List (ℕ × Call) → Tickets → Tickets
calls [] m = m
calls ((now, c) ∷ cs) m = calls cs (call now c m)

-- A call that does not name the ticket `id`, made no later than `end`.
abbrev pub IsOther : String → ℕ → ℕ × Call → Type 0
IsOther id end (now, issue_call j user ttl) = str_eq j id ≡ false
IsOther id end (now, validate_call j) = str_eq j id ≡ false
IsOther id end (now, cleanup_call) = now ≤ end

validate-lookup :
    (now : ℕ) (id j : String) (m : Tickets)
    → str_eq j id ≡ false
    → lookup id (validate now j m).0 ≡ lookup id m
unfolding validate
validate-lookup now id j m h = ground (arith, lookup-erase j id m)

calls-lookup :
    (cs : List (ℕ × Call)) (id : String) (m : Tickets) (t : Ticket)
    → All (IsOther id t.expires_at) cs
    → lookup id m ≡ some t
    → lookup id (calls cs m) ≡ some t
unfolding calls call
calls-lookup [] id m t h e = e
calls-lookup ((now, issue_call j user ttl) ∷ cs) id m t (other, h) e =
    calls-lookup cs id (call now (issue_call j user ttl) m) t h
      (unfold issue in (lookup-insert j id _ m ∙ rw other e))
calls-lookup ((now, validate_call j) ∷ cs) id m t (other, h) e =
    calls-lookup cs id (call now (validate_call j) m) t h (validate-lookup now id j m other ∙ e)
calls-lookup ((now, cleanup_call) ∷ cs) id m t (early, h) e =
    calls-lookup cs id (call now cleanup_call m) t h (
      unfold cleanup in
      lookup-keep (λ j (u : Ticket). not (ltb u.expires_at now)) id m t e (ground (arith, early)))

-- A ticket is worth its user once: it is accepted until it expires, whatever is done in between with
-- other tickets and however often the store is cleaned up, and a second time, whenever that is, it
-- is refused.
pub ticket_once :
    (now later again ttl : ℕ) (id user : String) (cs : List (ℕ × Call)) (m : Tickets)
    → All (IsOther id (now + ttl * 1000)) cs
    → later ≤ now + ttl * 1000
    → (let held = calls cs (issue now id user ttl m) in
        ((validate later id held).1 ≡ some user)
        × ((validate again id (validate later id held).0).1 ≡ none))
unfolding issue validate
ticket_once now later again ttl id user cs m h k =
    let t : Ticket = record { user_id = user; expires_at = now + ttl * 1000 } in
    let held = calls cs (insert id t m) in
    let found = calls-lookup cs id (insert id t m) t h (lookup-insert_self id t m) in
    let early : ltb t.expires_at later ≡ false = ground arith in
    (rw (found, early) refl, rw (found, early, lookup-erase_self id held) refl)

-- After it expires, it is refused.
pub ticket_expires :
    (now : ℕ) (id : String) (m : Tickets) (t : Ticket)
    → lookup id m ≡ some t
    → t.expires_at < now
    → validate now id m ≡ (erase id m, none)
unfolding validate
ticket_expires now id m t e h = ground (arith, e, h)
