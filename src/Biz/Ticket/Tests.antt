-- ===== src/Biz/Ticket/Tests.antt =====
-- Tickets on a small desk: one ticket of alice, with a public reply and an internal one.
use first_golang.Prelude.{
  ℕ, ◌≡◌, ◌≤◌, ◌↔◌, ◌⊎◌, refl, String, some, Bool, true, false, List, [], ◌∷◌, arith, str_eq_iff,
  length,
}
use first_golang.Prelude.Int.{pos}
use first_golang.Sql.Table.{select}
use first_golang.Sql.Listing.{In, listing, listing_asc}
use first_golang.Sql.Exec.{Conn, never, calm}
use first_golang.Biz.Ticket.Defs.{Ticket, TicketReply, TicketEvaluation, Tables}
use first_golang.Biz.Ticket.Ops.{
  update_ticket_status, assign_ticket, add_ticket_evaluation, list_ticket_replies, list_tickets,
  show_tickets,
}
use first_golang.Biz.Ticket.Replies.{customer_replies, notes_hidden, list_replies_exact}
use first_golang.Biz.Ticket.Closing.{Evaluates, evaluation_closes, tickets_private_if_mine}

abbrev ticket : Ticket
ticket = record {
  ticket_no = "WO1";
  user_id = "alice";
  title = "upload fails";
  category = "咨询";
  priority = "medium";
  status = "handling";
  assignee_id = "staff";
  order_id = 0;
  sla_due_at = some 86410;
  created_at = 10;
  updated_at = 10;
}

abbrev reply : Bool → TicketReply
reply is_internal = record {
  ticket_id = 1;
  user_id = "staff";
  content = "looking into it";
  is_internal = is_internal;
  created_at = 20;
}

abbrev evaluation : TicketEvaluation
evaluation = record {
  ticket_id = 0;
  score = pos 4;
  speed = pos 5;
  quality = pos 4;
  communication = pos 5;
  comment = "thanks";
  created_at = 0;
}

abbrev desk : Conn Tables
desk = record {
  tables = record {
    tickets = record { rows = (1, ticket) ∷ []; seq = 1 };
    replies = record { rows = (1, reply false) ∷ (2, reply true) ∷ []; seq = 2 };
    evaluations = record { rows = []; seq = 0 };
  };
  tick = 0;
  fails = never;
  clock = λ n. n;
  nonce = λ _. "7";
}

abbrev date_of : ℕ → String
date_of _ = "2026-01-01"

notes_hidden_example :
    (customer_replies 1 (update_ticket_status 1 "resolved" "bob" "done" desk).1.tables
      ≡ customer_replies 1 desk.tables)
    × (customer_replies 1 (assign_ticket 1 "carol" "bob" desk).1.tables
        ≡ customer_replies 1 desk.tables)
    × (customer_replies 1 (add_ticket_evaluation date_of 1 evaluation desk).1.tables
        ≡ customer_replies 1 desk.tables)
notes_hidden_example = notes_hidden date_of 1 1 "resolved" "bob" "done" "carol" evaluation desk

list_replies_exact_example : In (2, reply true) ((1, reply false) ∷ []) ↔ (
    ((◌≡◌ {A = ℕ} 1 1) × ((◌≡◌ {A = Bool} false true) ⊎ (◌≡◌ {A = Bool} true false)))
    × In (2, reply true) desk.tables.replies.rows)
unfolding list_ticket_replies listing_asc
list_replies_exact_example =
    list_replies_exact 1 false desk ((1, reply false) ∷ []) (2, reply true) refl

evaluation_closes_example :
    let t = (add_ticket_evaluation date_of 1 evaluation (calm desk)).1.tables in
    ((y : Ticket) × (select 1 t.tickets ≡ some y) × (y.status ≡ "closed"))
    × ((e : ℕ × TicketEvaluation) × In e t.evaluations.rows × Evaluates 1 evaluation e.1)
    × ((e : ℕ × TicketEvaluation)
        → In e t.evaluations.rows
        → e.1.ticket_id ≡ 1
        → Evaluates 1 evaluation e.1)
unfolding select
evaluation_closes_example = evaluation_closes date_of 1 evaluation ticket desk refl

abbrev alice_tickets : List (ℕ × Ticket)
alice_tickets = (1, ticket) ∷ []

tickets_private_if_mine_example :
    (length alice_tickets ≤ 200)
    × ((e : ℕ × Ticket)
        → In e alice_tickets
        → (e.1.user_id ≡ "alice") × In e desk.tables.tickets.rows)
    × (show_tickets "alice" false "" false false desk
        ≡ show_tickets "bob" false "" false false desk)
unfolding show_tickets list_tickets listing
tickets_private_if_mine_example =
    tickets_private_if_mine "alice" "bob" "" false desk alice_tickets
      (ground (arith, str_eq_iff "alice" "")) refl
