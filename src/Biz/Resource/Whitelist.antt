-- ===== src/Biz/Resource/Whitelist.antt =====
-- How the whitelist counts a pair of a resource and a user, as pairs are added and removed.
use first_golang.Prelude.{
  ℕ, suc, ◌≡◌, refl, String, Bool, true, List, [], ◌∷◌, ◌++◌, not, arith, ◌+◌, ==_iff, str_eq_iff,
  count_if, if◌then◌else◌, ltb,
}
use first_golang.Sql.Table.{insert}
use first_golang.Sql.Listing.{where_rows, delete_where}
use first_golang.Sql.Exec.{Conn, ok}
use first_golang.Biz.Resource.Defs.{Tables}
use first_golang.Biz.Resource.Ops.{add_whitelist, remove_whitelist, count_entries, is_entry}

module _ {A : Type 0} where
  pub count_if-append :
      (p : A → Bool) (xs : List A) (x : A)
      → count_if p (xs ++ x ∷ []) ≡ (if p x then 1 else 0) + count_if p xs
  count_if-append p [] x = ground arith
  count_if-append p (y ∷ ys) x = ground (arith, count_if-append p ys x)

module _ {R : Type 0} where
  count_if-removed :
      (p : ℕ × R → Bool) (xs : List (ℕ × R)) → count_if p (where_rows (λ e. not (p e)) xs) ≡ 0
  count_if-removed p [] = refl
  count_if-removed p (y ∷ ys) = ground (arith, count_if-removed p ys)

entry_itself :
    (id : ℕ) (user : String) (k : ℕ)
    → is_entry id user (k, record { resource_id = id; user_id = user }) ≡ true
entry_itself id user k = ground (arith, ==_iff id id, str_eq_iff user user)

pub count-remove :
    (id : ℕ) (user : String) (c : Conn Tables)
    → (remove_whitelist id user c).0 ≡ ok tt
    → count_entries id user (remove_whitelist id user c).1.tables ≡ 0
unfolding remove_whitelist delete_where
count-remove id user c h =
    ground (arith, count_if-removed (is_entry id user) c.tables.whitelist.rows)

pub count-add :
    (id : ℕ) (user : String) (c : Conn Tables)
    → (add_whitelist id user c).0 ≡ ok tt
    → count_entries id user (add_whitelist id user c).1.tables
      ≡ (if ltb 0 (count_entries id user c.tables) then count_entries id user c.tables else 1)
unfolding add_whitelist insert
count-add id user c h = ground (
  arith,
  count_if-append (is_entry id user) c.tables.whitelist.rows
      (suc c.tables.whitelist.seq, record { resource_id = id; user_id = user }),
  entry_itself id user (suc c.tables.whitelist.seq),
)
