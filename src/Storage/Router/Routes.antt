-- ===== src/Storage/Router/Routes.antt =====
-- The prefix of a stored path and the backend that it leads to (internal/storage/router.go).
use first_golang.Prelude.{
  ℕ, String, Option, none, some, true, false, ◌≡◌, ◌≢◌, refl, inl, inr, ◌&◌, str_eq, str_eq_iff,
  has_prefix, trim_prefix, cut_prefix-append, Bool-cases, Option-cases,
}
use first_golang.Sql.Exec.{Conn, ok, err, Error}
use first_golang.Storage.Backend.{Storage}
use first_golang.Storage.Router.{
  Router, local_prefix, s3_prefix, prefix_storage_path, backend_for, backend_and_path, copy_between,
  router_read_file, router_file_size, router_hash_file, router_delete_file, router_copy_file,
}
use first_golang.Storage.Router.Laws.{not_s3}

pub has_prefix-append : (p t : String) → has_prefix (p & t) p ≡ true
unfolding has_prefix
has_prefix-append p t = rw (has_prefix, cut_prefix-append p t) refl

pub trim_prefix-append : (p t : String) → trim_prefix (p & t) p ≡ t
unfolding trim_prefix
trim_prefix-append p t = rw (trim_prefix, cut_prefix-append p t) refl

pub local_not_s3 : (raw : String) → has_prefix (local_prefix & raw) s3_prefix ≡ false
unfolding has_prefix
local_not_s3 raw = rw (has_prefix, not_s3 raw) refl

module _ {S : Type 0} (r : Router S) where
  s3_routes : (raw : String) → backend_and_path r (s3_prefix & raw) ≡ (r.s3, raw)
  unfolding backend_and_path
  s3_routes raw = rw (has_prefix-append s3_prefix raw, trim_prefix-append s3_prefix raw) refl

  pub local_routes : (raw : String) → backend_and_path r (local_prefix & raw) ≡ (some r.local, raw)
  unfolding backend_and_path
  local_routes raw =
      rw (local_not_s3 raw, has_prefix-append local_prefix raw, trim_prefix-append local_prefix raw)
        refl

module _ {S : Type 0} (r : Router S) (src dst : String) (c : Conn S) where
  refused_into :
      (x : Option (Storage S) × String) (p : String)
      → (e : Error) × (copy_between r src dst x (none, p) c ≡ (err e, c))
  refused_into (none, q) p = (_, refl)
  refused_into (some b, q) p = (_, refl)

  refused_from :
      (x : Option (Storage S) × String) (p : String)
      → (e : Error) × (copy_between r src dst (none, p) x c ≡ (err e, c))
  refused_from (none, q) p = (_, refl)
  refused_from (some b, q) p = (_, refl)

-- A stored path leads back to the raw path, and to the backend on which files of that type are
-- written: for every type, unless the type is that of S3 and S3 is not configured.
pub prefix_storage_path_routes :
    {S : Type 0} (r : Router S) (t raw : String)
    → (t ≡ "s3" → r.s3 ≢ none)
    → backend_and_path r (prefix_storage_path t raw) ≡ (some (backend_for r t), raw)
unfolding prefix_storage_path backend_for
prefix_storage_path_routes r t raw h = elim (Bool-cases (str_eq t "s3")) [
  | inl e ↦ elim (Option-cases r.s3) [
    | inl n ↦ absurd (h ((str_eq_iff t "s3").0 e) n)
    | inr (b, n) ↦ rw (e, n) (s3_routes (record { local = r.local; s3 = some b }) raw)
  ]
  | inr e ↦ rw e (local_routes r raw)
]

-- Without S3, a path of S3 can be neither read, measured, hashed nor copied, from or to any other
-- path; to delete it succeeds and changes nothing.
pub unavailable_s3 :
    {S : Type 0} (l : Storage S) (raw other : String) (offset : ℕ) (c : Conn S)
    → let r : Router S = record { local = l; s3 = none } in
      let path = s3_prefix & raw in
      ((e : Error) × (router_read_file r path offset c ≡ (err e, c)))
      × ((e : Error) × (router_file_size r path c ≡ (err e, c)))
      × ((e : Error) × (router_hash_file r path c ≡ (err e, c)))
      × ((e : Error) × (router_copy_file r path other c ≡ (err e, c)))
      × ((e : Error) × (router_copy_file r other path c ≡ (err e, c)))
      × (router_delete_file r path c ≡ (ok tt, c))
unfolding router_read_file router_file_size router_hash_file router_delete_file router_copy_file
unavailable_s3 {S} l raw other offset c =
    let r : Router S = record { local = l; s3 = none } in
    let path = s3_prefix & raw in
    rw (s3_routes r raw) (
      (_, refl),
      (_, refl),
      (_, refl),
      refused_from r path other c (backend_and_path r other) raw,
      refused_into r other path c (backend_and_path r other) raw,
      refl,
    )
