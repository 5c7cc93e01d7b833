-- ===== src/Files.antt =====
-- Files, their trash and the objects that hold their contents (internal/store/file_repo.go,
-- internal/store/trash_repo.go and the handlers of internal/handler that call them).
pub mod Defs
pub mod Like
pub mod Rows
pub mod Ops
pub mod Trash
pub mod Handlers
pub mod Backed
pub mod Sharing
pub mod Restore
pub mod Paths
mod Tests
