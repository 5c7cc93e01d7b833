-- ===== src/Files/Handlers/Trash.antt =====
-- The trash (internal/handler/trash.go) and its cleaning when the server starts
-- (cmd/server/main.go). `storage` is the router.
use first_golang.Prelude.{
  ℕ, suc, String, Bool, Option, none, some, List, [], ◌∷◌, ◌&&◌, str_eq, ltb, ◌==◌, if◌then◌else◌,
}
use first_golang.Sql.Exec.{Action, ◌>>◌, pure, handling, ignore, ⊤}
use first_golang.Sql.Rows.{first_where}
use first_golang.Storage.Backend.{Storage}
use first_golang.Files.Defs.{FileRecord, State, Caller, is_admin, owner_filter, resolve_space_id}
use first_golang.Files.Ops.{find_file_by_name, mark_file_exists}
use first_golang.Files.Trash.{
  restore_file, permanently_delete_file, count_by_storage_path, cleanup_expired_trash,
  list_trashed_files,
}
use first_golang.Files.Handlers.{
  Reply, bad_request, not_found, conflict, internal_error, restored_file, deleted_file, batch,
  in_redis, on_disk,
}

module _ {S : Type 0} where
  -- `RestoreFile` after the checks
  abbrev pub restore_free : Bool → Caller → String → FileRecord → Action (State S) Reply
  restore_free redis who id target =
      handling (λ _. pure internal_error) (restore_file id (owner_filter who))
        λ affected. if affected == 0 then pure not_found else (do
          in_redis redis (mark_file_exists target.filename)
          pure (restored_file target.filename))

  abbrev pub restore_target : Bool → Caller → String → Option FileRecord → Action (State S) Reply
  restore_target redis who id none = pure not_found
  restore_target redis who id (some target) =
      handling (λ _. restore_free redis who id target)
        (find_file_by_name target.space_id target.filename (owner_filter who)) λ _. pure conflict

  unfoldable pub restore : Bool → Caller → String → String → Action (State S) Reply
  restore redis who space_id id =
      if str_eq id ""
      then pure bad_request
      else handling (λ _. pure internal_error)
          (list_trashed_files (resolve_space_id space_id who) (owner_filter who))
          λ trashed. restore_target redis who id (first_where (λ f. str_eq f.id id) trashed)

module _ {S : Type 0} (storage : Storage S) where
  abbrev pub delete_object : String → Action (State S) ⊤
  delete_object path = on_disk (storage.delete_file path)

  -- The object goes only where no row refers to it. An error of the count keeps it, and an error of
  -- the storage is only logged.
  unfoldable pub release_object : String → Action (State S) ⊤
  release_object path =
      handling (λ _. pure tt) (count_by_storage_path path)
        λ count. if ltb 0 count then pure tt else ignore (delete_object path)

  abbrev pub answer_deleted : FileRecord × ℕ → Action (State S) Reply
  answer_deleted (f, affected) =
      if affected == 0
      then pure not_found
      else release_object f.storage_path >> pure (deleted_file f.filename)

  unfoldable pub permanent_delete : Caller → String → Action (State S) Reply
  unfolding release_object
  permanent_delete who id =
      if str_eq id ""
      then pure bad_request
      else handling (λ _. pure internal_error) (permanently_delete_file id (owner_filter who))
          answer_deleted

  -- One file of `EmptyTrash`, and how the loop goes on.
  abbrev pub empty_one :
      String
      → Action (State S) Reply
      → Action (State S) Reply
      → FileRecord × ℕ
      → Action (State S) Reply
  empty_one path after_failure after_success (_, affected) =
      if affected == 0 then after_failure else release_object path >> after_success

  -- The loop of `EmptyTrash`, with the numbers of files deleted and failed so far.
  abbrev pub empty_each : String → List FileRecord → ℕ → ℕ → Action (State S) Reply
  empty_each owner [] done failed = pure (batch done failed)
  empty_each owner (f ∷ fs) done failed =
      handling (λ _. empty_each owner fs done (suc failed)) (permanently_delete_file f.id owner)
        (empty_one f.storage_path (empty_each owner fs done (suc failed))
          (empty_each owner fs (suc done) failed))

  -- `all` is the query parameter.
  unfoldable pub empty_trash : Caller → String → Bool → Action (State S) Reply
  unfolding release_object
  empty_trash who space_id all =
      let owner : String = if is_admin who && all then "" else who.username in
      handling (λ _. pure internal_error) (list_trashed_files (resolve_space_id space_id who) owner)
        λ files. empty_each owner files 0 0

  abbrev pub release_each : List FileRecord → Action (State S) ⊤
  release_each [] = pure tt
  release_each (f ∷ fs) = release_object f.storage_path >> release_each fs

  -- The cleaning at the start of the server
  unfoldable pub clean_trash : Action (State S) ⊤
  unfolding release_object
  clean_trash = handling (λ _. pure tt) (cleanup_expired_trash 30) λ expired. release_each expired
