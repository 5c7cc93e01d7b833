-- ===== src/Auth.antt =====
-- The authentication service (internal/auth and its tables in internal/store).
pub mod Tokens
pub mod Codes
