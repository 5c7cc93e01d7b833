-- ===== src/Sql.antt =====
-- What the business store (internal/biz) and the file store (internal/store) use of
-- `database/sql`: tables, and statements that may fail, each one reading a clock of its own.
pub mod Table
pub mod Listing
pub mod Rows
pub mod Exec
pub mod Steady
pub mod Within
pub mod Where
pub mod Keeps
pub mod Leads
pub mod Learns
pub mod Ensures
pub mod Refuses
