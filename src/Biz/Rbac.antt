-- ===== src/Biz/Rbac.antt =====
-- Roles and permissions (internal/biz/rbac.go).
pub mod Defs
pub mod Ops
mod Permitted
mod Tests
