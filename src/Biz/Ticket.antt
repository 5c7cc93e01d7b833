-- ===== src/Biz/Ticket.antt =====
-- Support tickets (internal/biz/ticket.go): their statuses, the replies under them and the
-- evaluations that close them.
mod Defs
mod Ops
mod Replies
mod Closing
mod Tests
