-- ===== src/Biz/Ticket/Replies.antt =====
-- What a customer sees of the replies under a ticket.
use first_golang.Prelude.{
  ℕ, ◌≡◌, ◌↔◌, ◌⊎◌, refl, ap, ◌∙◌, String, Bool, true, false, List, arith, ==_iff,
}
use first_golang.Sql.Listing.{In, listing_asc, listing_asc_iff, listing_asc-insert}
use first_golang.Sql.Exec.{Conn, ok, query-reads, now, update}
use first_golang.Sql.Keeps.{Keeps, Keeps-update, Keeps-bind, Keeps-now, keeps_rules}
use first_golang.Biz.Ticket.Defs.{TicketReply, TicketEvaluation, Tables, get_ticket}
use first_golang.Biz.Ticket.Ops.{
  add_note, insert_note, note_row, add_ticket_evaluation, update_ticket_status, assign_ticket,
  list_ticket_replies, reply_shown, move_ticket,
}

-- The replies under a ticket, as its customer sees them.
abbrev pub customer_replies : ℕ → Tables → List (ℕ × TicketReply)
customer_replies id t = listing_asc (reply_shown id false) t.replies

abbrev Sees : ℕ → List (ℕ × TicketReply) → Tables → Type 0
Sees id items t = customer_replies id t ≡ items

module _ (id : ℕ) (items : List (ℕ × TicketReply)) where
  same_replies :
      (f : Tables → Tables)
      → ((t : Tables) → (f t).replies ≡ t.replies)
      → Keeps (Sees id items) (update f)
  same_replies f k = Keeps-update f (λ t h. ap (listing_asc (reply_shown id false)) (k t) ∙ h)

  note-Sees :
      (other : ℕ) (user_id content : String)
      → Keeps (Sees id items) (add_note other user_id content)
  unfolding add_note
  note-Sees other user_id content =
      Keeps-bind now (λ at. update (insert_note other user_id content at)) Keeps-now
        λ at. Keeps-update (insert_note other user_id content at) λ t h.
          listing_asc-insert (reply_shown id false) (note_row other user_id content at) t.replies
            (ground arith)
          ∙ h

  move-Sees :
      (other : ℕ) (from to operator note : String)
      → Keeps (Sees id items) (move_ticket other from to operator note)
  unfolding move_ticket
  move-Sees other from to operator note = search (keeps_rules, note-Sees, same_replies)

  update-Sees :
      (other : ℕ) (to operator note : String)
      → Keeps (Sees id items) (update_ticket_status other to operator note)
  unfolding update_ticket_status get_ticket
  update-Sees other to operator note = search (keeps_rules, move-Sees) depth 12

  assign-Sees :
      (other : ℕ) (assignee_id operator : String)
      → Keeps (Sees id items) (assign_ticket other assignee_id operator)
  unfolding assign_ticket
  assign-Sees other assignee_id operator = search (keeps_rules, note-Sees, same_replies) depth 12

  evaluation-Sees :
      (format_date : ℕ → String) (other : ℕ) (ev : TicketEvaluation)
      → Keeps (Sees id items) (add_ticket_evaluation format_date other ev)
  unfolding add_ticket_evaluation
  evaluation-Sees format_date other ev = search (keeps_rules, update-Sees, same_replies) depth 12

-- Whatever the driver does, a change of status, an assignment and an evaluation of any ticket leave
-- the replies that a customer sees as they are: the notes that they write are internal.
pub notes_hidden :
    (format_date : ℕ → String) (id other : ℕ) (to operator note assignee_id : String)
    (ev : TicketEvaluation) (c : Conn Tables)
    → (customer_replies id (update_ticket_status other to operator note c).1.tables
        ≡ customer_replies id c.tables)
      × (customer_replies id (assign_ticket other assignee_id operator c).1.tables
          ≡ customer_replies id c.tables)
      × (customer_replies id (add_ticket_evaluation format_date other ev c).1.tables
          ≡ customer_replies id c.tables)
notes_hidden format_date id other to operator note assignee_id ev c =
    let items = customer_replies id c.tables in
    (
      (update-Sees id items other to operator note).at c refl,
      (assign-Sees id items other assignee_id operator).at c refl,
      (evaluation-Sees id items format_date other ev).at c refl,
    )

shown_iff :
    (ticket_id : ℕ) (is_staff : Bool) (e : ℕ × TicketReply)
    → (reply_shown ticket_id is_staff e ≡ true)
      ↔ ((e.1.ticket_id ≡ ticket_id) × ((is_staff ≡ true) ⊎ (e.1.is_internal ≡ false)))
shown_iff ticket_id is_staff e = ground (arith, ==_iff e.1.ticket_id ticket_id)

-- A list of replies holds exactly the replies under the ticket, for a caller who is not staff
-- without the internal ones.
pub list_replies_exact :
    (ticket_id : ℕ) (is_staff : Bool) (c : Conn Tables) (items : List (ℕ × TicketReply))
    (e : ℕ × TicketReply)
    → (list_ticket_replies ticket_id is_staff c).0 ≡ ok items
    → In e items ↔ (
        ((e.1.ticket_id ≡ ticket_id) × ((is_staff ≡ true) ⊎ (e.1.is_internal ≡ false)))
        × In e c.tables.replies.rows)
unfolding list_ticket_replies
list_replies_exact ticket_id is_staff c items e h =
    let p = reply_shown ticket_id is_staff in
    let eq = query-reads (λ (t : Tables). listing_asc p t.replies) c items h in
    let (to, from) = listing_asc_iff p c.tables.replies e in
    let (shown, show) = shown_iff ticket_id is_staff e in
    (
      λ m. let (passed, there) = to (rw (← eq) at m) in (shown passed, there),
      λ k. rw (← eq) (from (show k.0, k.1)),
    )
