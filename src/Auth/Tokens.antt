-- ===== src/Auth/Tokens.antt =====
-- Access and refresh tokens (internal/auth/token_rotate.go), and the sessions and the blacklist
-- that the store keeps for them (internal/store/oauth_repo.go).
mod Sessions
mod Manager
mod Ops
mod Dead
mod Stays
mod Once
mod Revoke
mod Race
mod Tests
