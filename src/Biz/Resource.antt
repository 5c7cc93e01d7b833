-- ===== src/Biz/Resource.antt =====
-- The resource centre (internal/biz/resource.go): resources that are published under a policy, the
-- whitelist that opens them to a user, and the log of downloads.
mod Defs
mod Ops
mod Whitelist
mod Access
mod Downloads
mod Tests
