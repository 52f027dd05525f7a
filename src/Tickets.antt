-- ===== src/Tickets.antt =====
-- Tickets for opening a connection (api/src/infrastructure/memory/InMemoryTicketStore.ts). Times are
-- milliseconds; the random identifier is an argument.
pub mod Uses
use dreamweaver.Prelude.{
  ℕ, ◌+◌, ◌*◌, String, Option, none, some, Dict, lookup, insert, erase, keep, not, ltb,
  if◌then◌else◌,
}

pub record Ticket : Type 0 where
  pub user_id : String
  pub expires_at : ℕ

abbrev pub Tickets : Type 0
Tickets = Dict Ticket

unfoldable pub issue : ℕ → String → String → (ttl_seconds : ℕ) → Tickets → Tickets
issue now id user ttl_seconds m =
    insert id (record { user_id = user; expires_at = now + ttl_seconds * 1000 }) m

abbrev validate_found : ℕ → String → Tickets → Option Ticket → Tickets × Option String
validate_found now id m none = (m, none)
validate_found now id m (some t) =
    if ltb t.expires_at now then (erase id m, none) else (erase id m, some t.user_id)

-- The user of the ticket, which is used up.
unfoldable pub validate : ℕ → String → Tickets → Tickets × Option String
validate now id m = validate_found now id m (lookup id m)

unfoldable pub cleanup : ℕ → Tickets → Tickets
cleanup now m = keep (λ id t. not (ltb t.expires_at now)) m
