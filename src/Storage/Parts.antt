-- ===== src/Storage/Parts.antt =====
-- The plan of a direct upload in parts: `CalculatePartSize` of internal/storage/storage.go, and the
-- loop of internal/handler/upload_init.go that lays the parts out. Sizes are in bytes; the plan is
-- made in int64 with its wrap-around, and the loop runs over parts that lie within the file.
mod Plan
mod Tiles
mod Tests
