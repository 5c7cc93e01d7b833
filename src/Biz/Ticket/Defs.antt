-- ===== src/Biz/Ticket/Defs.antt =====
-- The rows of the three tables, and the lookup of a ticket.
use first_golang.Prelude.{ℕ, String, Option, List, [], ◌∷◌, Bool, false, str_eq, ◌||◌}
use first_golang.Prelude.Int.{ℤ}
use first_golang.Sql.Table.{Table, select}
use first_golang.Sql.Exec.{Action, scan, query}

abbrev pub ticket_pending : String
ticket_pending = "pending"

abbrev pub ticket_handling : String
ticket_handling = "handling"

abbrev pub ticket_closed : String
ticket_closed = "closed"

-- The zero time of `SLADueAt` is `none`.
pub record Ticket : Type 0 where
  pub ticket_no : String
  pub user_id : String
  pub title : String
  pub category : String
  pub priority : String
  pub status : String
  pub assignee_id : String
  pub order_id : ℕ
  pub sla_due_at : Option ℕ
  pub created_at : ℕ
  pub updated_at : ℕ

pub record TicketReply : Type 0 where
  pub ticket_id : ℕ
  pub user_id : String
  pub content : String
  pub is_internal : Bool
  pub created_at : ℕ

pub record TicketEvaluation : Type 0 where
  pub ticket_id : ℕ
  pub score : ℤ
  pub speed : ℤ
  pub quality : ℤ
  pub communication : ℤ
  pub comment : String
  pub created_at : ℕ

pub record Tables : Type 0 where
  pub tickets : Table Ticket
  pub replies : Table TicketReply
  pub evaluations : Table TicketEvaluation

unfoldable pub get_ticket : ℕ → Action Tables Ticket
get_ticket id = query (λ t. scan (select id t.tickets))

-- The UNIQUE constraint on `ticket_no`.
abbrev pub has_ticket_no : String → List (ℕ × Ticket) → Bool
has_ticket_no number [] = false
has_ticket_no number ((_, x) ∷ xs) = str_eq x.ticket_no number || has_ticket_no number xs
