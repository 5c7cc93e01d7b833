-- ===== src/Files/Handlers/Dir.antt =====
-- Directories and renaming (internal/handler/file_dir.go). Paths of directories are normalised
-- before; `validate` is the test of file names, and `same` says which characters LIKE takes for equal.
use first_golang.Prelude.{
  ℕ, suc, String, Bool, List, [], ◌∷◌, ◌||◌, not, str_eq, ◌&◌, if◌then◌else◌, trim_prefix,
}
use first_golang.Sql.Exec.{Action, ◌>>=◌, ◌>>◌, pure, handling, ignore, otherwise, now}
use first_golang.Storage.Backend.{Storage}
use first_golang.Storage.Router.{prefix_storage_path}
use first_golang.Files.Defs.{
  FileRecord, State, Caller, owner_filter, normalize_write_space, resolve_space_id,
}
use first_golang.Files.Ops.{
  get_file, find_file_by_name, create_file, list_files, update_filename, mark_file_exists,
  unmark_file_exists,
}
use first_golang.Files.Handlers.{
  Reply, bad_request, forbidden, not_found, conflict, internal_error, created, renamed, batch,
  in_redis, is_forbidden, on_disk,
}
use first_golang.Files.Handlers.Text.{new_file}

module _ {S : Type 0} (storage local : Storage S) where
  -- Without the row the object goes again.
  abbrev pub make_row : String → FileRecord → String → Action (State S) Reply
  make_row raw row dir_path =
      handling (λ _. ignore (on_disk (storage.delete_file row.storage_path)) >> pure internal_error)
        (create_file row) λ _. pure (created dir_path)

  abbrev pub place_row : Caller → String → String → String → String → ℕ → Action (State S) Reply
  place_row who fresh dir_path space raw t =
      make_row raw
        (record (new_file fresh (dir_path & ".keep") who.username space t) {
          storage_path = prefix_storage_path "local" raw;
          chunk_size = 512;
        })
        dir_path

  abbrev pub make_dir : Caller → String → String → String → Action (State S) Reply
  make_dir who fresh dir_path space =
      let raw : String = local.storage_path_for fresh (dir_path & ".keep") in
      handling (λ _. pure internal_error) (on_disk (local.write_file raw ""))
        λ _. now >>= place_row who fresh dir_path space raw

  -- `Mkdir`: an empty file stands for the directory. The file is made by `AssembleFile` without
  -- chunks, which writes an empty file.
  unfoldable pub mkdir :
      (String → Bool) → Caller → String → String → String → Action (State S) Reply
  mkdir validate who fresh dir_path space_id =
      let space : String = normalize_write_space space_id who.username in
      if str_eq dir_path ""
      then pure bad_request
      else if not (validate (dir_path & ".keep"))
      then pure bad_request
      else handling (λ _. make_dir who fresh dir_path space)
          (find_file_by_name space (dir_path & ".keep") (owner_filter who)) λ _. pure conflict

module _ {S : Type 0} (redis : Bool) where
  abbrev pub rename_free : Caller → FileRecord → String → Action (State S) Reply
  rename_free who f filename =
      handling (λ _. pure internal_error) (update_filename f.id filename (owner_filter who))
        λ _. do
          in_redis redis (unmark_file_exists f.filename)
          in_redis redis (mark_file_exists filename)
          pure (renamed filename)

  unfoldable pub rename : (String → Bool) → Caller → String → String → Action (State S) Reply
  rename validate who id filename =
      if str_eq id "" || str_eq filename ""
      then pure bad_request
      else if not (validate filename)
      then pure bad_request
      else handling (λ _. pure not_found) (get_file id)
          λ f.
            if is_forbidden who f
            then pure forbidden
            else if str_eq f.filename filename
            then rename_free who f filename
            else handling (λ _. rename_free who f filename)
                (find_file_by_name f.space_id filename who.username) λ _. pure conflict

  -- The loop of `MoveDir`, with the numbers of files moved and failed so far.
  abbrev pub move_each : String → String → String → List FileRecord → ℕ → ℕ → Action (State S) Reply
  move_each old new owner [] done failed = pure (batch done failed)
  move_each old new owner (f ∷ fs) done failed =
      let filename : String = new & trim_prefix f.filename old in
      handling (λ _. move_each old new owner fs done (suc failed))
        (update_filename f.id filename owner)
        λ _. do
          in_redis redis (unmark_file_exists f.filename)
          in_redis redis (mark_file_exists filename)
          move_each old new owner fs (suc done) failed

  -- The source must have files, and the target none that are seen.
  abbrev pub move_listed :
      String → String → String → List FileRecord → List FileRecord → Action (State S) Reply
  move_listed old new owner [] targets = pure not_found
  move_listed old new owner (f ∷ fs) [] = move_each old new owner (f ∷ fs) 0 0
  move_listed old new owner (f ∷ fs) (g ∷ gs) = pure conflict

  -- The target is only listed where the source has files.
  abbrev pub targets_of :
      (ℕ → ℕ → Bool)
      → String
      → String
      → String
      → List FileRecord
      → Action (State S) (List FileRecord)
  targets_of same space new owner [] = pure []
  targets_of same space new owner (f ∷ fs) = otherwise [] (list_files same space new owner)

  -- An error of the second listing counts as no files.
  unfoldable pub move_dir :
      (ℕ → ℕ → Bool) → Caller → String → String → String → Action (State S) Reply
  move_dir same who old new space_id =
      let space : String = resolve_space_id space_id who in
      let owner : String = owner_filter who in
      if str_eq old "" || str_eq new ""
      then pure bad_request
      else if str_eq old new
      then pure bad_request
      else handling (λ _. pure internal_error) (list_files same space old owner)
          λ files. targets_of same space new owner files >>= move_listed old new owner files
