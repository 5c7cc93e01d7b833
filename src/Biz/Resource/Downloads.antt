-- ===== src/Biz/Resource/Downloads.antt =====
-- The counter of downloads and the log behind it.
use first_golang.Prelude.{
  ℕ, suc, ◌≡◌, ◌+◌, String, some, Bool, arith, count_if, ◌==◌, if◌then◌else◌,
}
use first_golang.Sql.Table.{select, insert, select-modify}
use first_golang.Sql.Exec.{Conn, ok}
use first_golang.Biz.Resource.Defs.{Resource, ResourceDownloadLog, Tables}
use first_golang.Biz.Resource.Ops.{log_download}
use first_golang.Biz.Resource.Whitelist.{count_if-append}

abbrev of_resource : ℕ → ℕ × ResourceDownloadLog → Bool
of_resource id (_, l) = l.resource_id == id

-- How many downloads of the resource the log has.
abbrev pub logged : ℕ → Tables → ℕ
logged id t = count_if (of_resource id) t.download_logs.rows

module _ (id : ℕ) (user ip : String) (c : Conn Tables) where
  abbrev log_row : ResourceDownloadLog
  log_row = record { resource_id = id; user_id = user; ip = ip; downloaded_at = c.clock c.tick }

  logged_after :
      (other : ℕ)
      → (log_download id user ip c).0 ≡ ok tt
      → logged other (log_download id user ip c).1.tables
        ≡ (if id == other then 1 else 0) + logged other c.tables
  unfolding log_download insert
  logged_after other h = ground (
    arith,
    count_if-append (of_resource other) c.tables.download_logs.rows
        (suc c.tables.download_logs.seq, log_row),
  )

  abbrev counted : Resource → Resource
  counted x = record x { downloads = suc x.downloads }

  selected_after :
      (other : ℕ) (r : Resource)
      → (log_download id user ip c).0 ≡ ok tt
      → select other c.tables.resources ≡ some r
      → select other (log_download id user ip c).1.tables.resources
        ≡ some (if id == other then counted r else r)
  unfolding log_download
  selected_after other r h e = ground (arith, select-modify c.tables.resources id other counted)

-- A download that is logged without an error keeps the counter of every resource in step with the
-- log: if the counter was the number of its entries in the log, it still is.
pub downloads_counted :
    (id other : ℕ) (user ip : String) (r : Resource) (c : Conn Tables)
    → select other c.tables.resources ≡ some r
    → r.downloads ≡ logged other c.tables
    → (log_download id user ip c).0 ≡ ok tt
    → (x : Resource) × (select other (log_download id user ip c).1.tables.resources ≡ some x)
      × (x.downloads ≡ logged other (log_download id user ip c).1.tables)
downloads_counted id other user ip r c e h k = (
  if id == other then counted id user ip c r else r,
  selected_after id user ip c other r k e,
  ground (arith, logged_after id user ip c other k),
)
