-- ===== src/Storage.antt =====
-- The storage of files (internal/storage).
pub mod Parts
pub mod Backend
pub mod Local
pub mod Router
pub mod Pair
pub mod Queue
