-- ===== src/Biz.antt =====
-- The business store (internal/biz): orders and refunds, tickets, resources, services, roles.
-- Each part has a state of its own, its tables; the request of a service order joins three of them.
pub mod Rbac
pub mod Order
pub mod Ticket
pub mod Resource
pub mod Service
