-- ===== src/Storage/Router.antt =====
-- The router between storage backends (internal/storage/router.go): the stored path says by its
-- prefix which backend holds the file. The backend for S3 is absent where it is not configured.
pub mod Laws
mod Copy
pub mod Refines
pub mod Routes
pub mod Fronts
pub mod Tests
use first_golang.Prelude.{
  ℕ, String, Option, none, some, Bool, ◌&◌, ◌||◌, not, str_eq, ◌==◌, has_prefix, trim_prefix,
  if◌then◌else◌,
}
use first_golang.Sql.Exec.{Action, Error, message, raise, ⊤, pure}
use first_golang.Storage.Backend.{Storage}

abbrev pub local_prefix : String
local_prefix = "local:"

abbrev pub s3_prefix : String
s3_prefix = "s3:"

unfoldable pub prefix_storage_path : String → String → String
prefix_storage_path storage_type raw =
    if str_eq storage_type "s3" then s3_prefix & raw else local_prefix & raw

pub record Router (S : Type 0) : Type 0 where
  pub local : Storage S
  pub s3 : Option (Storage S)

module _ {S : Type 0} (r : Router S) where
  unfoldable pub backend_for : String → Storage S
  backend_for t = if str_eq t "s3" then elim r.s3 [ some b ↦ b | none ↦ r.local ] else r.local

  unfoldable pub backend_and_path : String → Option (Storage S) × String
  unfolding has_prefix trim_prefix
  backend_and_path path =
      if has_prefix path s3_prefix
      then (r.s3, trim_prefix path s3_prefix)
      else if has_prefix path local_prefix
      then (some r.local, trim_prefix path local_prefix)
      else (some r.local, path)

  abbrev pub on_backend :
      {A : Type 0}
      → Option (Storage S) × String
      → Action S A
      → (Storage S → String → Action S A)
      → Action S A
  on_backend (none, p) missing f = missing
  on_backend (some b, p) missing f = f b p

  abbrev pub unavailable : {A : Type 0} → String → Action S A
  unavailable path = raise (message ("storage backend unavailable for path " & path))

  unfoldable pub router_read_file : String → ℕ → Action S String
  unfolding backend_and_path
  router_read_file path offset =
      on_backend (backend_and_path path) (unavailable path) (λ b p. b.read_file p offset)

  unfoldable pub router_file_size : String → Action S ℕ
  unfolding backend_and_path
  router_file_size path =
      on_backend (backend_and_path path) (unavailable path) (λ b p. b.file_size p)

  -- Where the backend is absent, nothing is deleted and no error is returned.
  unfoldable pub router_delete_file : String → Action S ⊤
  unfolding backend_and_path
  router_delete_file path = on_backend (backend_and_path path) (pure tt) (λ b p. b.delete_file p)

  unfoldable pub router_hash_file : String → Action S String
  unfolding backend_and_path
  router_hash_file path =
      on_backend (backend_and_path path) (unavailable path) (λ b p. b.hash_file p)

  abbrev pub copy_between :
      String → String → Option (Storage S) × String → Option (Storage S) × String → Action S ⊤
  copy_between src dst (some bs, sp) (some bd, dp) =
      if bs.identity == bd.identity
      then bs.copy_file sp dp
      else raise (message ("cross-backend copy unsupported (src=" & src & " dst=" & dst & ")"))
  copy_between src dst _ _ =
      raise (message ("cross-backend copy unsupported (src=" & src & " dst=" & dst & ")"))

  unfoldable pub router_copy_file : String → String → Action S ⊤
  unfolding backend_and_path
  router_copy_file src dst = copy_between src dst (backend_and_path src) (backend_and_path dst)

  -- `WriteFile` and `StoragePathFor` go to the local backend.
  router_write_file : String → String → Action S ℕ
  router_write_file path text = r.local.write_file path text

  router_storage_path_for : String → String → String
  router_storage_path_for file_id filename = r.local.storage_path_for file_id filename

  -- The path within the local backend, of a path without the prefix of S3.
  local_raw : String → String
  unfolding has_prefix trim_prefix
  local_raw path = if has_prefix path local_prefix then trim_prefix path local_prefix else path

  abbrev pub shown : Option (Storage S) × String → S → Option String
  shown (none, p) s = none
  shown (some b, p) s = b.content p s

  -- The router as a storage of prefixed paths. Two paths name one object where they lead to one
  -- object of one backend.
  unfoldable pub router_storage : Storage S
  unfolding local_raw backend_and_path router_read_file router_write_file router_file_size
      router_hash_file router_delete_file router_copy_file router_storage_path_for
  router_storage = record {
    identity = 2;
    read_file = router_read_file;
    write_file = router_write_file;
    file_size = router_file_size;
    hash_file = router_hash_file;
    delete_file = router_delete_file;
    copy_file = router_copy_file;
    storage_path_for = router_storage_path_for;
    name = λ path.
        if has_prefix path s3_prefix
        then s3_prefix & elim r.s3 [
          | some b ↦ b.name (trim_prefix path s3_prefix)
          | none ↦ trim_prefix path s3_prefix
        ]
        else local_prefix & r.local.name (local_raw path);
    content = λ path s. shown (backend_and_path path) s;
    digest = r.local.digest;
  }
