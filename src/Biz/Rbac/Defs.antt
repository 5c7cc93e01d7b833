-- ===== src/Biz/Rbac/Defs.antt =====
-- The rows of the four tables.
use first_golang.Prelude.{ℕ, String, List}
use first_golang.Sql.Table.{Table}

pub record Role : Type 0 where
  pub code : String
  pub name : String
  pub description : String

pub record Permission : Type 0 where
  pub code : String
  pub name : String
  pub module_name : String

pub record UserRole : Type 0 where
  pub user_id : String
  pub role_id : ℕ

pub record RolePermission : Type 0 where
  pub role_id : ℕ
  pub permission_id : ℕ

pub record Tables : Type 0 where
  pub roles : Table Role
  pub permissions : Table Permission
  pub user_roles : List UserRole
  pub role_permissions : List RolePermission
