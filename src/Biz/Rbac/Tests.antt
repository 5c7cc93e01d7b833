-- ===== src/Biz/Rbac/Tests.antt =====
-- One role with one permission, bound to alice.
use first_golang.Prelude.{ℕ, ◌≡◌, ◌↔◌, refl, [], ◌∷◌, Bool, true, Elem, ◌⊎◌}
use first_golang.Sql.Exec.{Conn, ok, never}
use first_golang.Biz.Rbac.Defs.{Role, UserRole, Tables}
use first_golang.Biz.Rbac.Ops.{has_permission, assign_role, unassign_role}
use first_golang.Biz.Rbac.Permitted.{Permitted, HasRole, has_permission_exact, role_changes}

abbrev office : Conn Tables
office = record {
  tables = record {
    roles = record {
      rows = (1, record { code = "staff"; name = "服务人员"; description = "" }) ∷ [];
      seq = 1;
    };
    permissions = record {
      rows = (1, record { code = "ticket:write"; name = "工单处理"; module_name = "ticket" }) ∷ [];
      seq = 1;
    };
    user_roles = record { user_id = "alice"; role_id = 1 } ∷ [];
    role_permissions = record { role_id = 1; permission_id = 1 } ∷ [];
  };
  tick = 0;
  fails = never;
  clock = λ n. n;
  nonce = λ _. "7";
}

has_permission_exact_example :
    (◌≡◌ {A = Bool} true true) ↔ Permitted "alice" "ticket:write" office.tables
unfolding has_permission
has_permission_exact_example = has_permission_exact "alice" "ticket:write" office true refl

abbrev binding : UserRole
binding = record { user_id = "alice"; role_id = 1 }

role_changes_example :
    ((assign_role "bob" "staff" office).0 ≡ ok tt
      → (id : ℕ) × (r : Role) × Elem (id, r) office.tables.roles.rows
        × (r.code ≡ "staff")
        × (Elem binding (assign_role "bob" "staff" office).1.tables.user_roles ↔ (
            ((record { user_id = "bob"; role_id = id }) ≡ binding)
            ⊎ Elem binding office.tables.user_roles)))
    × ((unassign_role "bob" "staff" office).0 ≡ ok tt
        → Elem binding (unassign_role "bob" "staff" office).1.tables.user_roles ↔ (
            ¬ (HasRole "bob" "staff" office.tables binding)
            × Elem binding office.tables.user_roles))
role_changes_example = role_changes "bob" "staff" office binding
