-- ===== src/Biz/Resource/Defs.antt =====
-- The rows of the three tables, and the lookup of a resource.
use first_golang.Prelude.{ℕ, String}
use first_golang.Prelude.Int.{ℤ}
use first_golang.Sql.Table.{Table, select}
use first_golang.Sql.Exec.{Action, query, scan}

abbrev pub policy_public : String
policy_public = "public"

abbrev pub policy_login : String
policy_login = "login"

abbrev pub policy_whitelist : String
policy_whitelist = "whitelist"

abbrev pub policy_member : String
policy_member = "member"

abbrev pub policy_paid : String
policy_paid = "paid"

abbrev pub resource_draft : String
resource_draft = "draft"

abbrev pub resource_published : String
resource_published = "published"

abbrev pub resource_offline : String
resource_offline = "offline"

pub record Resource : Type 0 where
  pub name : String
  pub type : String
  pub description : String
  pub cover : String
  pub file_id : String
  pub owner_id : String
  pub status : String
  pub policy : String
  pub price : ℤ
  pub downloads : ℕ
  pub created_at : ℕ
  pub updated_at : ℕ

pub record ResourceWhitelist : Type 0 where
  pub resource_id : ℕ
  pub user_id : String

pub record ResourceDownloadLog : Type 0 where
  pub resource_id : ℕ
  pub user_id : String
  pub ip : String
  pub downloaded_at : ℕ

pub record Tables : Type 0 where
  pub resources : Table Resource
  pub whitelist : Table ResourceWhitelist
  pub download_logs : Table ResourceDownloadLog

unfoldable pub get_resource : ℕ → Action Tables Resource
get_resource id = query (λ t. scan (select id t.resources))
