-- ===== src/Biz/Ticket/Closing.antt =====
-- What an evaluation does to a ticket, and which tickets a caller is shown.
use first_golang.Prelude.{
  ℕ, suc, ◌≡◌, ◌≢◌, ◌≤◌, inl, inr, refl, ap, sym, String, some, Bool, true, false, List, arith,
  ==_iff, str_eq, str_eq_iff, Bool-cases, length,
}
use first_golang.Sql.Table.{select, select-modify}
use first_golang.Sql.Listing.{
  In, listing, listing_sound, length-listing, delete_where, delete_where_iff, insert-In,
}
use first_golang.Sql.Exec.{Conn, ok, query-reads, calm}
use first_golang.Biz.Ticket.Defs.{Ticket, TicketEvaluation, Tables, get_ticket}
use first_golang.Biz.Ticket.Ops.{
  add_ticket_evaluation, replace_evaluation, of_ticket, update_ticket_status, move_ticket, add_note,
  show_tickets, list_tickets, ticket_shown,
}

module _ (id : ℕ) (operator note : String) (c : Conn Tables) where
  moved_status :
      (to : String) (x : Ticket)
      → select id c.tables.tickets ≡ some x
      → (y : Ticket) × (select id
            (update_ticket_status id to operator note (calm c)).1.tables.tickets
          ≡ some y)
        × (y.status ≡ to)
  unfolding update_ticket_status get_ticket move_ticket add_note
  moved_status to x e = elim (Bool-cases (str_eq x.status to)) [
    | inl s ↦ (x, ground arith, ground (arith, str_eq_iff x.status to))
    | inr s ↦ (
      record x { status = to; updated_at = c.clock (suc c.tick) },
      ground (
        arith,
        select-modify c.tables.tickets id id
            (λ (z : Ticket). record z { status = to; updated_at = c.clock (suc c.tick) }),
      ),
      refl,
    )
  ]

  update_evaluations :
      (to : String)
      → (update_ticket_status id to operator note c).1.tables.evaluations ≡ c.tables.evaluations
  unfolding update_ticket_status get_ticket move_ticket add_note
  update_evaluations to = ground arith

-- After the INSERT OR REPLACE, an evaluation of the ticket is the one that was stored.
replaced :
    (x : TicketEvaluation) (t : Tables) (e : ℕ × TicketEvaluation)
    → In e (replace_evaluation x t).evaluations.rows
    → e.1.ticket_id ≡ x.ticket_id
    → e.1 ≡ x
replaced x t e m q =
    elim ((insert-In x (delete_where (of_ticket x.ticket_id) t.evaluations) e).0 m) [
      | inl p ↦ ap (λ y. y.1) (sym p)
      | inr k ↦
          let (passed, there) = (delete_where_iff (of_ticket x.ticket_id) t.evaluations e).0 k in
          absurd (ground (arith, ==_iff e.1.ticket_id x.ticket_id))
    ]

-- The row is an evaluation of the ticket with the marks and the comment given.
abbrev pub Evaluates : ℕ → TicketEvaluation → TicketEvaluation → Type 0
Evaluates id ev e =
    (e.ticket_id ≡ id)
    × (e.score ≡ ev.score)
    × (e.speed ≡ ev.speed)
    × (e.quality ≡ ev.quality)
    × (e.communication ≡ ev.communication)
    × (e.comment ≡ ev.comment)

module _ (id : ℕ) (ev : TicketEvaluation) (c : Conn Tables) where
  abbrev stored : TicketEvaluation
  stored = record ev { ticket_id = id; created_at = c.clock (suc c.tick) }

  -- The connection when the status is changed.
  abbrev evaluated : Conn Tables
  evaluated = record c {
    tables = replace_evaluation stored c.tables;
    tick = suc (suc (suc c.tick));
  }

-- With a driver that does not fail, an evaluation of a ticket that is there leaves the ticket
-- closed, whatever its status was, and the table has an evaluation of that ticket with the four
-- marks and the comment just given, which every evaluation of that ticket in the table has.
pub evaluation_closes :
    (format_date : ℕ → String) (id : ℕ) (ev : TicketEvaluation) (x : Ticket) (c : Conn Tables)
    → select id c.tables.tickets ≡ some x
    → let t = (add_ticket_evaluation format_date id ev (calm c)).1.tables in
      ((y : Ticket) × (select id t.tickets ≡ some y) × (y.status ≡ "closed"))
      × ((e : ℕ × TicketEvaluation) × In e t.evaluations.rows × Evaluates id ev e.1)
      × ((e : ℕ × TicketEvaluation)
          → In e t.evaluations.rows
          → e.1.ticket_id ≡ id
          → Evaluates id ev e.1)
unfolding add_ticket_evaluation
evaluation_closes format_date id ev x c h =
    let day = format_date (c.clock c.tick) in
    let note : String = "用户评价完成" in
    let made = stored id ev c in
    let kept = update_evaluations id day note (calm (evaluated id ev c)) "closed" in
    let others = delete_where (of_ticket id) c.tables.evaluations in
    (
      moved_status id day note (evaluated id ev c) "closed" x h,
      (
        (suc others.seq, made),
        rw kept ((insert-In made others (suc others.seq, made)).1 (inl refl)),
        (refl, refl, refl, refl, refl, refl),
      ),
      λ e m q.
          let same = replaced made c.tables e (rw kept at m) q in
          rw same (refl, refl, refl, refl, refl, refl),
    )

ticket_shown_iff :
    (caller status : String) (e : ℕ × Ticket)
    → ticket_shown caller status "" true e ≡ true
    → caller ≢ ""
    → e.1.user_id ≡ caller
ticket_shown_iff caller status e h ne =
    ground (arith, str_eq_iff caller "", str_eq_iff e.1.user_id caller)

-- A customer who asks for `mine` is shown own tickets only, at most 200 of them; without `mine`
-- any two customers are shown the same tickets, whoever filed them.
pub tickets_private_if_mine :
    (caller other status : String) (assigned : Bool) (c : Conn Tables) (items : List (ℕ × Ticket))
    → caller ≢ ""
    → (show_tickets caller false status true assigned c).0 ≡ ok items
    → (length items ≤ 200)
      × ((e : ℕ × Ticket) → In e items → (e.1.user_id ≡ caller) × In e c.tables.tickets.rows)
      × (show_tickets caller false status false assigned c
          ≡ show_tickets other false status false assigned c)
unfolding show_tickets list_tickets
tickets_private_if_mine caller other status assigned c items ne h =
    let p = ticket_shown caller status "" true in
    let eq = query-reads (λ (t : Tables). listing 200 p t.tickets) c items h in
    (
      rw (← eq) (length-listing 200 p c.tables.tickets),
      λ e m.
          let (passed, there) = listing_sound 200 p c.tables.tickets e (rw (← eq) at m) in
          (ticket_shown_iff caller status e passed ne, there),
      refl,
    )
