-- ===== src/Biz/Service.antt =====
-- Services (internal/biz/service.go): the catalog and its SKUs, service orders with their
-- milestones, and acceptances.
mod Defs
mod Ops
mod Milestones
mod Acceptance
mod Request
mod Tests
