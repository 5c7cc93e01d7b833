-- ===== src/Biz/Order.antt =====
-- Orders and refunds: internal/biz/order.go over the tables `biz_orders`, `biz_order_logs` and
-- `biz_refunds`. Times are seconds; amounts are in cents, without the wrap-around of int64.
mod Defs
mod Ops
mod Lists
pub mod Trail
pub mod Pay
pub mod Filed
pub mod Again
pub mod Refunds
pub mod Visible
mod Tests
unfoldable pub use Defs.*
unfoldable pub use Ops.*
unfoldable pub use Lists.*
