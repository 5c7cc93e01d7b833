-- ===== src/Biz/Rbac/Ops.antt =====
-- The check of a permission and the binding of roles to users.
use first_golang.Prelude.{
  ℕ, String, Option, none, some, List, [], ◌∷◌, ◌++◌, Bool, ltb, str_eq, ◌==◌, ◌&&◌, if◌then◌else◌,
  any, count_if, sum_over,
}
use first_golang.Sql.Table.{Table}
use first_golang.Sql.Exec.{Action, Result, ok, err, role_not_found, query, ⊤, ◌>>=◌, update}
use first_golang.Biz.Rbac.Defs.{Role, Permission, UserRole, RolePermission, Tables}

-- The rows that join a binding of a role to the permissions with the code.
abbrev pub named : String → ℕ → ℕ × Permission → Bool
named code id (k, p) = (k == id) && str_eq p.code code

abbrev pub granted : String → Tables → ℕ → RolePermission → ℕ
granted code t role_id rp =
    if rp.role_id == role_id then count_if (named code rp.permission_id) t.permissions.rows else 0

abbrev pub bound : String → String → Tables → UserRole → ℕ
bound user_id code t ur =
    if str_eq ur.user_id user_id then sum_over (granted code t ur.role_id) t.role_permissions else 0

-- The COUNT(*) over the join of three tables.
abbrev pub count_grants : String → String → Tables → ℕ
count_grants user_id code t = sum_over (bound user_id code t) t.user_roles

unfoldable pub has_permission : String → String → Action Tables Bool
has_permission user_id code = query (λ t. ok (ltb 0 (count_grants user_id code t)))

-- `SELECT id FROM biz_roles WHERE code=?`
abbrev pub find_role : String → List (ℕ × Role) → Option ℕ
find_role code [] = none
find_role code ((id, r) ∷ rs) = if str_eq r.code code then some id else find_role code rs

abbrev pub binds : String → ℕ → UserRole → Bool
binds user_id role_id ur = str_eq ur.user_id user_id && (ur.role_id == role_id)

-- `INSERT OR IGNORE`: the pair is the primary key.
abbrev pub bind_role : String → ℕ → Tables → Tables
bind_role user_id role_id t = if any (binds user_id role_id) t.user_roles then t else record t {
  user_roles = t.user_roles ++ record { user_id = user_id; role_id = role_id } ∷ [];
}

abbrev known : Option ℕ → Result ℕ
known none = err role_not_found
known (some id) = ok id

-- `AssignRole`: any error of the lookup is reported as a role that is not found.
abbrev look_up_role : String → Action Tables ℕ
look_up_role code c =
    let (r, c') = query (λ t. known (find_role code t.roles.rows)) c in
    (elim r [ ok id ↦ ok id | err _ ↦ err role_not_found ], c')

unfoldable pub assign_role : String → String → Action Tables ⊤
assign_role user_id code = do id ← look_up_role code; update (bind_role user_id id)

-- `role_id IN (SELECT id FROM biz_roles WHERE code=?)`
abbrev pub has_code : String → ℕ → Table Role → Bool
has_code code role_id t = any (λ e. (e.0 == role_id) && str_eq e.1.code code) t.rows

abbrev pub loses : String → String → Table Role → UserRole → Bool
loses user_id code t ur = str_eq ur.user_id user_id && has_code code ur.role_id t

abbrev pub drop_where : (UserRole → Bool) → List UserRole → List UserRole
drop_where p [] = []
drop_where p (x ∷ xs) = let rest = drop_where p xs in if p x then rest else x ∷ rest

unfoldable pub unassign_role : String → String → Action Tables ⊤
unassign_role user_id code =
    update (λ t. record t { user_roles = drop_where (loses user_id code t.roles) t.user_roles })
