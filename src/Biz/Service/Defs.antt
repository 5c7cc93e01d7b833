-- ===== src/Biz/Service/Defs.antt =====
-- The rows of the five tables, and the lookups by key.
use first_golang.Prelude.{ℕ, String, List, [], ◌∷◌, Bool, false, str_eq, ◌||◌}
use first_golang.Prelude.Int.{ℤ}
use first_golang.Sql.Table.{Table, select}
use first_golang.Sql.Exec.{Action, query, scan}

abbrev pub srv_wait_confirm : String
srv_wait_confirm = "WAIT_CONFIRM"

abbrev pub srv_delivering : String
srv_delivering = "DELIVERING"

abbrev pub srv_wait_accept : String
srv_wait_accept = "WAIT_ACCEPT"

abbrev pub srv_completed : String
srv_completed = "COMPLETED"

pub record ServiceCatalog : Type 0 where
  pub name : String
  pub category : String
  pub description : String
  pub price : ℤ
  pub cycle : String
  pub deliverable : String
  pub sla : String
  pub status : String

pub record ServiceSku : Type 0 where
  pub service_id : ℕ
  pub name : String
  pub price : ℤ
  pub desc : String

pub record ServiceOrder : Type 0 where
  pub srv_no : String
  pub order_id : ℕ
  pub service_id : ℕ
  pub sku_id : ℕ
  pub user_id : String
  pub owner_id : String
  pub status : String
  pub requirement : String
  pub created_at : ℕ
  pub updated_at : ℕ

pub record ServiceMilestone : Type 0 where
  pub service_order_id : ℕ
  pub name : String
  pub status : String
  pub due_at : ℕ

pub record ServiceAcceptance : Type 0 where
  pub service_order_id : ℕ
  pub result : String
  pub note : String
  pub accepted_at : ℕ

pub record Tables : Type 0 where
  pub catalogs : Table ServiceCatalog
  pub skus : Table ServiceSku
  pub orders : Table ServiceOrder
  pub milestones : Table ServiceMilestone
  pub acceptances : Table ServiceAcceptance

unfoldable pub get_service_catalog : ℕ → Action Tables ServiceCatalog
get_service_catalog id = query (λ t. scan (select id t.catalogs))

unfoldable pub get_service_order : ℕ → Action Tables ServiceOrder
get_service_order id = query (λ t. scan (select id t.orders))

-- The UNIQUE constraint on `srv_no`.
abbrev pub has_srv_no : String → List (ℕ × ServiceOrder) → Bool
has_srv_no number [] = false
has_srv_no number ((_, x) ∷ xs) = str_eq x.srv_no number || has_srv_no number xs
