-- ===== src/Biz/Rbac/Permitted.antt =====
-- Who has a permission.
use first_golang.Prelude.{
  ℕ, ◌<◌, ◌≡◌, ◌↔◌, inl, inr, refl, String, some, List, [], ◌∷◌, ◌++◌, Bool, true, false, arith,
  ltb, str_eq_iff, ==_iff, Elem, sum_over, count_if, sum_over-positive, positive-sum_over, any,
  str_eq, ◌==◌, ◌&&◌, ◌⊎◌, ap, subst, ◌∙◌, Bool-cases, Option-cases,
}
use first_golang.Sql.Exec.{Conn, ok, query-reads}
use first_golang.Biz.Rbac.Defs.{Role, Permission, UserRole, RolePermission, Tables}
use first_golang.Biz.Rbac.Ops.{
  has_permission, count_grants, bound, granted, named, assign_role, unassign_role, find_role, binds,
  loses, drop_where, bind_role,
}

count_if-positive :
    {A : Type 0} (p : A → Bool) (xs : List A)
    → 0 < count_if p xs
    → (x : A) × Elem x xs × (p x ≡ true)
count_if-positive p [] h = absurd (omega arith)
count_if-positive p (x ∷ xs) h = elim (Bool-cases (p x)) [
  | inl e ↦ (x, inl refl, e)
  | inr e ↦ let (y, m, q) = count_if-positive p xs (ground arith) in (y, inr m, q)
]

positive-count_if :
    {A : Type 0} (p : A → Bool) (xs : List A) (x : A) → Elem x xs → p x ≡ true → 0 < count_if p xs
positive-count_if p [] x m e = absurd m
positive-count_if p (y ∷ ys) x (inl q) e = let r : p y ≡ true = rw q e in ground arith
positive-count_if p (y ∷ ys) x (inr m) e = ground (arith, positive-count_if p ys x m e)

-- The user is bound to a role to which a permission with the code is bound.
abbrev pub Permitted : String → String → Tables → Type 0
Permitted user_id code t =
    (ur : UserRole) × Elem ur t.user_roles
    × (ur.user_id ≡ user_id)
    × ((rp : RolePermission) × Elem rp t.role_permissions
        × (rp.role_id ≡ ur.role_id)
        × ((p : ℕ × Permission) × Elem p t.permissions.rows
            × (p.0 ≡ rp.permission_id)
            × (p.1.code ≡ code)))

module _ (user_id code : String) (t : Tables) where
  grants_sound : 0 < count_grants user_id code t → Permitted user_id code t
  grants_sound h =
      let (ur, m, b) = sum_over-positive (bound user_id code t) t.user_roles h in
      let u : ur.user_id ≡ user_id = ground (arith, str_eq_iff ur.user_id user_id) in
      let s : 0 < sum_over (granted code t ur.role_id) t.role_permissions = ground arith in
      let (rp, n, g) = sum_over-positive (granted code t ur.role_id) t.role_permissions s in
      let r : rp.role_id ≡ ur.role_id = ground (arith, ==_iff rp.role_id ur.role_id) in
      let k : 0 < count_if (named code rp.permission_id) t.permissions.rows = ground arith in
      let (p, o, e) = count_if-positive (named code rp.permission_id) t.permissions.rows k in
      (
        ur,
        m,
        u,
        (
          rp,
          n,
          r,
          (
            p,
            o,
            ground (arith, ==_iff p.0 rp.permission_id),
            ground (arith, str_eq_iff p.1.code code),
          ),
        ),
      )

  grants_complete : Permitted user_id code t → 0 < count_grants user_id code t
  grants_complete (ur, m, u, (rp, n, r, (p, o, i, e))) =
      let k =
        positive-count_if (named code rp.permission_id) t.permissions.rows p o
          (ground (arith, ==_iff p.0 rp.permission_id, str_eq_iff p.1.code code)) in
      let g : 0 < granted code t ur.role_id rp = ground (arith, ==_iff rp.role_id ur.role_id) in
      let s = positive-sum_over (granted code t ur.role_id) t.role_permissions rp n g in
      let b : 0 < bound user_id code t ur = ground (arith, str_eq_iff ur.user_id user_id) in
      positive-sum_over (bound user_id code t) t.user_roles ur m b

-- The check of a permission that returns says that the user has it exactly if the user is bound to
-- a role to which a permission with that code is bound.
pub has_permission_exact :
    (user_id code : String) (c : Conn Tables) (b : Bool)
    → (has_permission user_id code c).0 ≡ ok b
    → (b ≡ true) ↔ Permitted user_id code c.tables
unfolding has_permission
has_permission_exact user_id code c b h =
    let eq = query-reads (λ (t : Tables). ltb 0 (count_grants user_id code t)) c b h in
    (
      λ e. grants_sound user_id code c.tables (ground arith),
      λ p. let k = grants_complete user_id code c.tables p in ground arith,
    )

drop_where_iff :
    (p : UserRole → Bool) (x : UserRole) (xs : List UserRole)
    → Elem x (drop_where p xs) ↔ ((p x ≡ false) × Elem x xs)
drop_where_iff p x [] = (absurd, λ h. h.1)
drop_where_iff p x (y ∷ ys) =
    let (to, from) = drop_where_iff p x ys in
    elim (Bool-cases (p y)) [
      | inl e ↦ rw e (
        λ m. ((to m).0, inr (to m).1),
        λ h. elim h.1 [
          | inl q ↦ absurd (let r : p y ≡ false = rw q h.0 in cc)
          | inr k ↦ from (h.0, k)
        ],
      )
      | inr e ↦ rw e (
        elim [ inl q ↦ (rw (← q) e, inl q) | inr m ↦ ((to m).0, inr (to m).1) ],
        λ h. elim h.1 [ inl q ↦ inl q | inr k ↦ inr (from (h.0, k)) ],
      )
    ]

append_one-Elem :
    {A : Type 0} (e x : A) (xs : List A) → Elem e (xs ++ x ∷ []) ↔ ((x ≡ e) ⊎ Elem e xs)
append_one-Elem e x [] = (λ h. h, λ h. h)
append_one-Elem e x (y ∷ ys) =
    let (to, from) = append_one-Elem e x ys in
    (
      elim [ inl q ↦ inr (inl q) | inr m ↦ elim (to m) [ inl q ↦ inl q | inr k ↦ inr (inr k) ] ],
      elim [
        | inl q ↦ inr (from (inl q))
        | inr m ↦ elim m [ inl q ↦ inl q | inr k ↦ inr (from (inr k)) ]
      ],
    )

same_binding : (a b : UserRole) → a.user_id ≡ b.user_id → a.role_id ≡ b.role_id → a ≡ b
same_binding a b p q = λ i. record { user_id = p i; role_id = q i }

any-Elem :
    {A : Type 0} (p : A → Bool) (xs : List A) → any p xs ≡ true → (x : A) × Elem x xs × (p x ≡ true)
any-Elem p [] h = absurd (ground arith)
any-Elem p (x ∷ xs) h = elim (Bool-cases (p x)) [
  | inl e ↦ (x, inl refl, e)
  | inr e ↦ let (y, m, q) = any-Elem p xs (ground arith) in (y, inr m, q)
]

Elem-any :
    {A : Type 0} (p : A → Bool) (xs : List A) (x : A) → Elem x xs → p x ≡ true → any p xs ≡ true
Elem-any p [] x m e = absurd m
Elem-any p (y ∷ ys) x (inl q) e = let r : p y ≡ true = rw q e in ground arith
Elem-any p (y ∷ ys) x (inr m) e = ground (arith, Elem-any p ys x m e)

-- The id found for a code is that of a role with the code.
find_role-Elem :
    (code : String) (rows : List (ℕ × Role)) (id : ℕ)
    → find_role code rows ≡ some id
    → (r : Role) × Elem (id, r) rows × (r.code ≡ code)
find_role-Elem code [] id h = absurd (ground arith)
find_role-Elem code ((k, r) ∷ rs) id h = elim (Bool-cases (str_eq r.code code)) [
  | inl e ↦
      let same : k ≡ id = ground arith in
      (r, inl (ap (λ z. (z, r)) same), (str_eq_iff r.code code).0 e)
  | inr e ↦ let (x, m, q) = find_role-Elem code rs id (ground arith) in (x, inr m, q)
]

-- The bindings of a user to a role with the code.
abbrev pub HasRole : String → String → Tables → UserRole → Type 0
HasRole user_id code t ur =
    (ur.user_id ≡ user_id)
    × ((e : ℕ × Role) × Elem e t.roles.rows × (e.0 ≡ ur.role_id) × (e.1.code ≡ code))

module _ (user_id code : String) (t : Tables) (ur : UserRole) where
  loses-HasRole : loses user_id code t.roles ur ≡ true → HasRole user_id code t ur
  loses-HasRole h =
      let (e, m, q) =
        any-Elem (λ (e : ℕ × Role). (e.0 == ur.role_id) && str_eq e.1.code code) t.roles.rows
          (ground arith) in
      (
        ground (arith, str_eq_iff ur.user_id user_id),
        (e, m, ground (arith, ==_iff e.0 ur.role_id), ground (arith, str_eq_iff e.1.code code)),
      )

  HasRole-loses : HasRole user_id code t ur → loses user_id code t.roles ur ≡ true
  HasRole-loses (u, (e, m, i, q)) =
      let there =
        Elem-any (λ (e : ℕ × Role). (e.0 == ur.role_id) && str_eq e.1.code code) t.roles.rows e m
          (ground (arith, ==_iff e.0 ur.role_id, str_eq_iff e.1.code code)) in
      ground (arith, str_eq_iff ur.user_id user_id)

bound_rows :
    (user_id : String) (id : ℕ) (t : Tables) (ur : UserRole)
    → Elem ur (bind_role user_id id t).user_roles
      ↔ (((record { user_id = user_id; role_id = id }) ≡ ur) ⊎ Elem ur t.user_roles)
bound_rows user_id id t ur =
    let row : UserRole = record { user_id = user_id; role_id = id } in
    elim (Bool-cases (any (binds user_id id) t.user_roles)) [
      | inl e ↦
          let (x, m, q) = any-Elem (binds user_id id) t.user_roles e in
          let same : x ≡ row =
            same_binding x row (ground (arith, str_eq_iff x.user_id user_id))
              (ground (arith, ==_iff x.role_id id)) in
          rw e
            (λ k. inr k, elim [ inl p ↦ subst (λ z. Elem z t.user_roles) (same ∙ p) m | inr k ↦ k ])
      | inr e ↦ rw e (append_one-Elem ur row t.user_roles)
    ]

-- A role assigned without an error is one with the code that is in the table, and the bindings are
-- then exactly those before and the one of the user to it. After a removal without an error the
-- bindings are exactly those before, less the bindings of that user to a role with the code.
pub role_changes :
    (user_id code : String) (c : Conn Tables) (ur : UserRole)
    → ((assign_role user_id code c).0 ≡ ok tt
        → (id : ℕ) × (r : Role) × Elem (id, r) c.tables.roles.rows
          × (r.code ≡ code)
          × (Elem ur (assign_role user_id code c).1.tables.user_roles ↔ (
              ((record { user_id = user_id; role_id = id }) ≡ ur) ⊎ Elem ur c.tables.user_roles)))
      × ((unassign_role user_id code c).0 ≡ ok tt
          → Elem ur (unassign_role user_id code c).1.tables.user_roles
            ↔ (¬ (HasRole user_id code c.tables ur) × Elem ur c.tables.user_roles))
role_changes user_id code c ur = (
  λ h. elim (Option-cases (find_role code c.tables.roles.rows)) [
    | inl e ↦ absurd (unfold assign_role in ground arith)
    | inr (id, e) ↦
        let (r, m, q) = find_role-Elem code c.tables.roles.rows id e in
        let after : (assign_role user_id code c).1.tables ≡ bind_role user_id id c.tables =
          unfold assign_role in ground arith in
        (id, r, m, q, rw after (bound_rows user_id id c.tables ur))
  ],
  λ h.
      let lost = loses user_id code c.tables.roles in
      let after : (unassign_role user_id code c).1.tables.user_roles
          ≡ drop_where lost c.tables.user_roles =
        unfold unassign_role in ground arith in
      let (to, from) = drop_where_iff lost ur c.tables.user_roles in
      let keeps = loses-HasRole user_id code c.tables ur in
      let drops = HasRole-loses user_id code c.tables ur in
      rw after (
        λ m. let (f, n) = to m in (λ k. let b = drops k in absurd (ground arith), n),
        λ k. elim (Bool-cases (lost ur)) [ inl e ↦ absurd (k.0 (keeps e)) | inr e ↦ from (e, k.1) ],
      ),
)
