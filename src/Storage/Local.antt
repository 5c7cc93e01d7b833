-- ===== src/Storage/Local.antt =====
-- LocalStorage (internal/storage/local.go) over a disk that holds the content of each path. Each call
-- of the operating system may fail, and a copy that fails leaves the part it has written. The
-- directories of the files are left out.
mod Gives
pub mod Laws
use Prim.Native.Nat.{zero}
use Prim.Native.Char.{code}
use Prim.Native.String.{slice, len}
use first_golang.Prelude.{
  ℕ, suc, String, Option, none, some, ◌≡◌, ◌≢◌, refl, sym, List, [], ◌∷◌, Bool, ◌&&◌, not, ◌==◌,
  ltb, true, false, ◌&◌, str_eq, str_eq_iff, arith, if◌then◌else◌,
}
use first_golang.Sql.Exec.{
  Conn, Result, ok, err, Error, driver, no_rows, Action, ◌>>=◌, ◌>>◌, pure, statement, query,
  update, wrapped, scan, ⊤, on_error,
}
use first_golang.Storage.Backend.{Storage, IsStorage, Spares, behind}

abbrev pub Disk : Type 0
Disk = List (String × String)

unfoldable pub at_path : String → Disk → Option String
at_path p [] = none
at_path p ((q, x) ∷ d) = let rest = at_path p d in if str_eq q p then some x else rest

unfoldable pub without : String → Disk → Disk
without p [] = []
without p ((q, x) ∷ d) = let rest = without p d in if str_eq q p then rest else (q, x) ∷ rest

unfoldable pub with_file : String → String → Disk → Disk
unfolding without
with_file p x d = (p, x) ∷ without p d

at_path-without :
    (p q : String) (d : Disk) → at_path q (without p d) ≡ (if str_eq p q then none else at_path q d)
unfolding at_path without
at_path-without p q [] = ground arith
at_path-without p q ((r, x) ∷ d) =
    ground (arith, str_eq_iff p q, str_eq_iff r p, str_eq_iff r q, at_path-without p q d)

at_path-with_file :
    (p q x : String) (d : Disk)
    → at_path q (with_file p x d) ≡ (if str_eq p q then some x else at_path q d)
unfolding with_file at_path
at_path-with_file p q x d = ground (arith, at_path-without p q d)

-- `io.Copy` into a file that has just been created: where it fails, part of the text is there.
abbrev pub poured : String → String → Conn Disk → Bool → Result ℕ × Conn Disk
poured p text c true = (
  err driver,
  record c { tick = suc c.tick; tables = with_file p (slice text zero (c.clock c.tick)) c.tables },
)
poured p text c false =
    (ok (len text), record c { tick = suc c.tick; tables = with_file p text c.tables })

abbrev pub pour : String → String → Action Disk ℕ
pour p text c = poured p text c (c.fails c.tick)

holds_slash : String → Bool
holds_slash String.[] = false
holds_slash (String.◌∷◌ c s) = let rest = holds_slash s in if code c == b'/' then true else rest

-- `filepath.Ext`
ext : String → String
ext String.[] = ""
ext (String.◌∷◌ c s) =
    let rest = ext s in
    if not (str_eq rest "")
    then rest
    else if (code c == b'.') && not (holds_slash s)
    then String.◌∷◌ c s
    else ""

shard_path : String → String → String
unfolding ext holds_slash
shard_path file_id filename =
    if ltb (len file_id) 4
    then file_id & ext filename
    else slice file_id 0 2 & "/" & slice file_id 2 4 & "/" & file_id & ext filename

module _ (base_path : String) (sha256 : String → String) where
  abbrev pub read_path : String → Action Disk String
  read_path p = query (λ d. scan (at_path p d))

  unfoldable pub local_read_file : String → ℕ → Action Disk String
  local_read_file p offset = do x ← read_path p; pure (behind offset x)

  -- `os.MkdirAll`
  abbrev mkdir_all : Action Disk ⊤
  mkdir_all = statement (λ d. (ok tt, d))

  unfoldable pub local_write_file : String → String → Action Disk ℕ
  unfolding with_file
  local_write_file p text = do
    wrapped "create parent dir" mkdir_all
    wrapped "create file" (update (λ d. with_file p "" d))
    pour p text

  unfoldable pub local_delete_file : String → Action Disk ⊤
  unfolding without
  local_delete_file p = wrapped "delete file" (update (λ d. without p d))

  unfoldable pub local_file_size : String → Action Disk ℕ
  local_file_size p = do x ← wrapped "stat file" (read_path p); pure (len x)

  unfoldable pub local_hash_file : String → Action Disk String
  local_hash_file p = do x ← wrapped "hash open file" (read_path p); pure (sha256 x)

  unfoldable pub local_copy_file : String → String → Action Disk ⊤
  unfolding with_file without
  local_copy_file src dst = do
    _ ← wrapped "open src file" (read_path src)
    wrapped "create dst dir" mkdir_all
    wrapped "create dst file" (update (λ d. with_file dst "" d))
    wrapped "copy"
        (on_error (update (λ d. without dst d)) (do x ← read_path src; _ ← pour dst x; pure tt))

  unfoldable pub local_storage : Storage Disk
  unfolding local_read_file local_write_file local_file_size local_hash_file local_delete_file
      local_copy_file shard_path
  local_storage = record {
    identity = 0;
    read_file = local_read_file;
    write_file = local_write_file;
    file_size = local_file_size;
    hash_file = local_hash_file;
    delete_file = local_delete_file;
    copy_file = local_copy_file;
    storage_path_for = λ file_id filename. base_path & "/" & shard_path file_id filename;
    name = λ p. p;
    content = at_path;
    digest = sha256;
  }
