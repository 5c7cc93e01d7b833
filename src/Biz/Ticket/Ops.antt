-- ===== src/Biz/Ticket/Ops.antt =====
-- The operations on tickets, and the list that the HTTP handler shows (internal/biz/handler_ticket.go).
use first_golang.Prelude.{
  ℕ, ◌+◌, String, Option, none, some, Bool, true, List, str_eq, if◌then◌else◌, ◌&◌, ◌&&◌, ◌||◌, not,
  ◌==◌,
}
use first_golang.Sql.Table.{insert, modify}
use first_golang.Sql.Listing.{listing, listing_asc, delete_where}
use first_golang.Sql.Where.{matches}
use first_golang.Sql.Exec.{
  Action, Result, ok, err, unique, query, statement, ⊤, ◌>>=◌, ◌>>◌, now, random, update, ignore,
  pure,
}
use first_golang.Biz.Ticket.Defs.{
  Ticket, TicketReply, TicketEvaluation, Tables, get_ticket, has_ticket_no, ticket_pending,
  ticket_handling, ticket_closed,
}

abbrev insert_ticket : Ticket → Tables → Result ℕ × Tables
insert_ticket x t =
    let tickets' = insert x t.tickets in
    if has_ticket_no x.ticket_no t.tickets.rows
    then (err unique, t)
    else (ok tickets'.seq, record t { tickets = tickets' })

-- 24 hours after the time, unless a limit is given.
abbrev sla_limit : ℕ → Option ℕ → ℕ
sla_limit at none = at + 86400
sla_limit at (some due) = due

unfoldable pub create_ticket : Ticket → Action Tables (ℕ × Ticket)
create_ticket x = do
  at ← now
  serial ← random
  due ← now
  let x' = record x {
    ticket_no = "WO" & serial;
    status = if str_eq x.status "" then ticket_pending else x.status;
    sla_due_at = some (sla_limit due x.sla_due_at);
  }
  id ← statement (insert_ticket (record x' { created_at = at; updated_at = at }))
  made ← now
  pure (id, record x' { created_at = made; updated_at = made })

-- The row of an internal note.
abbrev pub note_row : ℕ → String → String → ℕ → TicketReply
note_row id user_id content at = record {
  ticket_id = id;
  user_id = user_id;
  content = content;
  is_internal = true;
  created_at = at;
}

-- The INSERT of an internal note.
abbrev pub insert_note : ℕ → String → String → ℕ → Tables → Tables
insert_note id user_id content at t = record t {
  replies = insert (note_row id user_id content at) t.replies;
}

unfoldable pub add_note : ℕ → String → String → Action Tables ⊤
add_note id user_id content = do at ← now; update (insert_note id user_id content at)

-- The UPDATE of `UpdateTicketStatus`.
abbrev pub set_status : ℕ → String → ℕ → Tables → Tables
set_status id to at t = record t {
  tickets = modify id (λ x. record x { status = to; updated_at = at }) t.tickets;
}

-- The UPDATE of `AssignTicket`.
abbrev pub set_assignee : ℕ → String → ℕ → Tables → Tables
set_assignee id assignee_id at t = record t {
  tickets =
      modify id
        (λ x. record x { assignee_id = assignee_id; status = ticket_handling; updated_at = at })
        t.tickets;
}

-- The part of `UpdateTicketStatus` after its early returns.
unfoldable pub move_ticket : ℕ → String → String → String → String → Action Tables ⊤
unfolding add_note
move_ticket id from to operator note = do
  at ← now
  update (set_status id to at)
  ignore (add_note id operator ("状态变更: " & from & " → " & to & "（" & note & "）"))

unfoldable pub update_ticket_status : ℕ → String → String → String → Action Tables ⊤
unfolding get_ticket move_ticket
update_ticket_status id to operator note = do
  cur ← get_ticket id
  if str_eq cur.status to then pure tt else move_ticket id cur.status to operator note

unfoldable pub assign_ticket : ℕ → String → String → Action Tables ⊤
unfolding add_note
assign_ticket id assignee_id operator = do
  at ← now
  update (set_assignee id assignee_id at)
  ignore (add_note id operator ("派单给: " & assignee_id))

abbrev insert_reply : TicketReply → Tables → Result ℕ × Tables
insert_reply r t =
    let replies' = insert r t.replies in (ok replies'.seq, record t { replies = replies' })

unfoldable pub add_ticket_reply : ℕ → String → String → Bool → Action Tables (ℕ × TicketReply)
add_ticket_reply ticket_id user_id content is_internal = do
  at ← now
  let r : TicketReply = record {
    ticket_id = ticket_id;
    user_id = user_id;
    content = content;
    is_internal = is_internal;
    created_at = at;
  }
  id ← statement (insert_reply r)
  pure (id, r)

-- The WHERE clause of `ListTicketReplies`.
abbrev pub reply_shown : ℕ → Bool → ℕ × TicketReply → Bool
reply_shown ticket_id is_staff (_, r) =
    (r.ticket_id == ticket_id) && (is_staff || not r.is_internal)

unfoldable pub list_ticket_replies : ℕ → Bool → Action Tables (List (ℕ × TicketReply))
unfolding listing_asc
list_ticket_replies ticket_id is_staff =
    query (λ t. ok (listing_asc (reply_shown ticket_id is_staff) t.replies))

abbrev pub of_ticket : ℕ → ℕ × TicketEvaluation → Bool
of_ticket ticket_id (_, x) = x.ticket_id == ticket_id

-- `INSERT OR REPLACE`: `ticket_id` is UNIQUE, a row of the same ticket is removed.
abbrev pub replace_evaluation : TicketEvaluation → Tables → Tables
replace_evaluation x t = record t {
  evaluations = insert x (delete_where (of_ticket x.ticket_id) t.evaluations);
}

-- `format_date` is the standard library's `Format("2006-01-02")`, of which nothing is assumed.
unfoldable pub add_ticket_evaluation :
    (ℕ → String) → ℕ → TicketEvaluation → Action Tables TicketEvaluation
unfolding update_ticket_status
add_ticket_evaluation format_date ticket_id ev = do
  made ← now
  at ← now
  update (replace_evaluation (record ev { ticket_id = ticket_id; created_at = at }))
  ignore (update_ticket_status ticket_id ticket_closed (format_date made) "用户评价完成")
  pure (record ev { created_at = made })

-- The WHERE clause of `ListTickets`: the user counts only where `mine` is asked for.
abbrev pub ticket_shown : String → String → String → Bool → ℕ × Ticket → Bool
ticket_shown user_id status assignee_id mine (_, x) =
    (not mine || matches user_id x.user_id)
    && (matches assignee_id x.assignee_id && matches status x.status)

unfoldable pub list_tickets : String → String → String → Bool → Action Tables (List (ℕ × Ticket))
unfolding listing
list_tickets user_id status assignee_id mine =
    query (λ t. ok (listing 200 (ticket_shown user_id status assignee_id mine) t.tickets))

-- `tickets`, GET: the caller, whether the caller is staff, and the query's `status`, `mine` and
-- `assigned`.
unfoldable pub show_tickets :
    String → Bool → String → Bool → Bool → Action Tables (List (ℕ × Ticket))
unfolding list_tickets
show_tickets caller is_staff status mine assigned =
    let all_users = is_staff && not mine in
    list_tickets (if all_users then "" else caller) status
      (if all_users && assigned then caller else "") mine
