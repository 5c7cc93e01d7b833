-- ===== src/Storage/Local/Gives.antt =====
-- What the reads and the deletion of LocalStorage return (internal/storage/local.go).
use Prim.Native.String.{len}
use first_golang.Prelude.{
  ℕ, String, none, some, ◌≡◌, refl, arith, str_eq_iff, Option-cases, inl, inr,
}
use first_golang.Sql.Exec.{Conn, ok, calm}
use first_golang.Storage.Backend.{behind}
use first_golang.Storage.Local.{
  Disk, at_path, at_path-without, local_read_file, local_file_size, local_hash_file,
  local_delete_file,
}

module _ (base : String) (sha : String → String) where
  pub read-gives :
      (p x : String) (offset : ℕ) (c : Conn Disk)
      → (local_read_file base sha p offset c).0 ≡ ok x
      → (y : String) × (at_path p c.tables ≡ some y) × (x ≡ behind offset y)
  unfolding local_read_file
  read-gives p x offset c h = elim (Option-cases (at_path p c.tables)) [
    | inl e ↦ absurd (ground arith)
    | inr (y, e) ↦ (y, e, ground arith)
  ]

  pub size-gives :
      (p : String) (n : ℕ) (c : Conn Disk)
      → (local_file_size base sha p c).0 ≡ ok n
      → (y : String) × (at_path p c.tables ≡ some y) × (n ≡ len y)
  unfolding local_file_size
  size-gives p n c h = elim (Option-cases (at_path p c.tables)) [
    | inl e ↦ absurd (ground arith)
    | inr (y, e) ↦ (y, e, ground arith)
  ]

  pub hash-gives :
      (p x : String) (c : Conn Disk)
      → (local_hash_file base sha p c).0 ≡ ok x
      → (y : String) × (at_path p c.tables ≡ some y) × (x ≡ sha y)
  unfolding local_hash_file
  hash-gives p x c h = elim (Option-cases (at_path p c.tables)) [
    | inl e ↦ absurd (ground arith)
    | inr (y, e) ↦ (y, e, ground arith)
  ]

  pub delete-removes :
      (p : String) (c : Conn Disk)
      → (local_delete_file base sha p c).0 ≡ ok tt
      → at_path p (local_delete_file base sha p c).1.tables ≡ none
  unfolding local_delete_file
  delete-removes p c h = ground (arith, at_path-without p p c.tables, str_eq_iff p p)

  pub read-works :
      (p y : String) (offset : ℕ) (c : Conn Disk)
      → at_path p c.tables ≡ some y
      → (local_read_file base sha p offset (calm c)).0 ≡ ok (behind offset y)
  unfolding local_read_file
  read-works p y offset c e = ground arith

  pub size-works :
      (p y : String) (c : Conn Disk)
      → at_path p c.tables ≡ some y
      → (local_file_size base sha p (calm c)).0 ≡ ok (len y)
  unfolding local_file_size
  size-works p y c e = ground arith

  pub hash-works :
      (p y : String) (c : Conn Disk)
      → at_path p c.tables ≡ some y
      → (local_hash_file base sha p (calm c)).0 ≡ ok (sha y)
  unfolding local_hash_file
  hash-works p y c e = ground arith

  pub delete-works :
      (p : String) (c : Conn Disk) → (local_delete_file base sha p (calm c)).0 ≡ ok tt
  unfolding local_delete_file
  delete-works p c = refl
