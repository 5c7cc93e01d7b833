-- ===== src/Biz/Resource/Access.antt =====
-- Who may open a resource.
use first_golang.Prelude.{
  ℕ, ◌≡◌, ◌≢◌, ◌<◌, ◌⊎◌, ◌↔◌, inl, inr, String, some, Bool, true, arith, str_eq_iff, Option-cases,
}
use first_golang.Sql.Table.{select}
use first_golang.Sql.Exec.{Conn, ok, calm}
use first_golang.Biz.Resource.Defs.{Resource, Tables, get_resource}
use first_golang.Biz.Resource.Ops.{
  check_resource_access, by_policy, whitelisted, count_entries, remove_whitelist,
}
use first_golang.Biz.Resource.Whitelist.{count-remove}

-- The policies that open a resource to the users on its whitelist.
abbrev pub IsRestricted : String → Type 0
IsRestricted policy = (policy ≡ "whitelist") ⊎ ((policy ≡ "member") ⊎ (policy ≡ "paid"))

-- What the policy asks of a caller.
abbrev pub Permits : Resource → Bool → ℕ → Type 0
Permits r is_logged_in entries =
    (r.status ≡ "published")
    × ((r.policy ≡ "public")
        ⊎ ((is_logged_in ≡ true)
            × ((r.policy ≡ "login") ⊎ (IsRestricted r.policy × (0 < entries)))))

module _ (id : ℕ) (user : String) (is_logged_in : Bool) where
  policy_sound :
      (policy : String) (c : Conn Tables)
      → (by_policy policy id user is_logged_in c).0 ≡ ok tt
      → (policy ≡ "public")
        ⊎ ((is_logged_in ≡ true)
            × ((policy ≡ "login") ⊎ (IsRestricted policy × (0 < count_entries id user c.tables))))
  unfolding by_policy whitelisted
  policy_sound policy c h = ground (
    arith,
    str_eq_iff policy "public",
    str_eq_iff policy "login",
    str_eq_iff policy "whitelist",
    str_eq_iff policy "member",
    str_eq_iff policy "paid",
  )

  policy_complete :
      (policy : String) (c : Conn Tables)
      → (policy ≡ "public")
        ⊎ ((is_logged_in ≡ true)
            × ((policy ≡ "login") ⊎ (IsRestricted policy × (0 < count_entries id user c.tables))))
      → (by_policy policy id user is_logged_in (calm c)).0 ≡ ok tt
  unfolding by_policy whitelisted
  policy_complete policy c h = ground (
    arith,
    str_eq_iff policy "public",
    str_eq_iff policy "login",
    str_eq_iff policy "whitelist",
    str_eq_iff policy "member",
    str_eq_iff policy "paid",
  )

  access_found :
      (r : Resource) (c : Conn Tables)
      → select id c.tables.resources ≡ some r
      → (check_resource_access id user is_logged_in c).0 ≡ ok tt
      → Permits r is_logged_in (count_entries id user c.tables)
  access_found r c e h =
      let same : (get_resource id c).1.tables ≡ c.tables = unfold get_resource in ground arith in
      let opened : (by_policy r.policy id user is_logged_in (get_resource id c).1).0 ≡ ok tt =
        unfold check_resource_access get_resource in ground arith in
      (
        unfold check_resource_access get_resource in
            ground (arith, str_eq_iff r.status "published"),
        rw same at (policy_sound r.policy (get_resource id c).1 opened),
      )

-- Whatever the driver does, access is granted only to a resource that is in the table and
-- published, and only if its policy is `public`, or the caller is logged in and the policy is
-- `login`, or the policy is `whitelist`, `member` or `paid` and the whitelist has the caller.
pub access_sound :
    (id : ℕ) (user : String) (is_logged_in : Bool) (c : Conn Tables)
    → (check_resource_access id user is_logged_in c).0 ≡ ok tt
    → (r : Resource) × (select id c.tables.resources ≡ some r)
      × Permits r is_logged_in (count_entries id user c.tables)
access_sound id user is_logged_in c h = elim (Option-cases (select id c.tables.resources)) [
  | inl e ↦ absurd (unfold check_resource_access get_resource in ground arith)
  | inr (r, e) ↦ (r, e, access_found id user is_logged_in r c e h)
]

-- With a driver that does not fail, access to a resource in the table is granted exactly if the
-- resource is published and its policy permits the caller.
pub access_exact :
    (id : ℕ) (user : String) (is_logged_in : Bool) (r : Resource) (c : Conn Tables)
    → select id c.tables.resources ≡ some r
    → ((check_resource_access id user is_logged_in (calm c)).0 ≡ ok tt)
      ↔ Permits r is_logged_in (count_entries id user c.tables)
access_exact id user is_logged_in r c e = (
  access_found id user is_logged_in r (calm c) e,
  λ p.
      unfold check_resource_access get_resource in
      ground (
        arith,
        str_eq_iff r.status "published",
        policy_complete id user is_logged_in r.policy (get_resource id (calm c)).1 p.1,
      ),
)

-- After a removal from the whitelist that succeeds, the user is refused a resource whose policy is
-- neither `public` nor `login`, whatever the driver does.
pub remove_denies :
    (id : ℕ) (user : String) (is_logged_in : Bool) (r : Resource) (c : Conn Tables)
    → select id c.tables.resources ≡ some r
    → r.policy ≢ "public"
    → r.policy ≢ "login"
    → (remove_whitelist id user c).0 ≡ ok tt
    → (check_resource_access id user is_logged_in (remove_whitelist id user c).1).0 ≢ ok tt
remove_denies id user is_logged_in r c e np nl h k =
    let d = (remove_whitelist id user c).1 in
    let kept : select id d.tables.resources ≡ some r = unfold remove_whitelist in ground arith in
    let p = access_found id user is_logged_in r d kept k in ground (arith, count-remove id user c h)
