-- ===== src/Files/Handlers/Delete.antt =====
-- Soft deletion (internal/handler/file_delete.go). A path `prefix` is normalised before the call, and
-- `redis` says whether a Redis is configured.
use first_golang.Prelude.{ℕ, suc, String, Bool, List, [], ◌∷◌, str_eq, if◌then◌else◌, length}
use first_golang.Sql.Exec.{Action, ◌>>◌, pure, handling, ⊤}
use first_golang.Files.Defs.{FileRecord, State, Caller, owner_filter, resolve_space_id}
use first_golang.Files.Ops.{get_file, unmark_file_exists}
use first_golang.Files.Trash.{delete_file, delete_files_by_prefix}
use first_golang.Files.Handlers.{
  Reply, bad_request, forbidden, not_found, internal_error, trashed_file, trashed_files, batch,
  is_forbidden, in_redis,
}

module _ {S : Type 0} (redis : Bool) where
  unfoldable pub delete_file_by_id : Caller → String → Action (State S) Reply
  delete_file_by_id who id =
      if str_eq id ""
      then pure bad_request
      else handling (λ _. pure not_found) (get_file id)
          λ f.
            if is_forbidden who f
            then pure forbidden
            else handling (λ _. pure internal_error) (delete_file id)
                λ _. do
                  in_redis redis (unmark_file_exists f.filename)
                  pure (trashed_file f.filename)

  abbrev pub unmark_each : List FileRecord → Action (State S) ⊤
  unmark_each [] = pure tt
  unmark_each (f ∷ fs) = in_redis redis (unmark_file_exists f.filename) >> unmark_each fs

  abbrev pub answer_trashed : List FileRecord → Action (State S) Reply
  answer_trashed [] = pure not_found
  answer_trashed (f ∷ fs) = unmark_each (f ∷ fs) >> pure (trashed_files (length (f ∷ fs)))

  unfoldable pub delete_dir : (ℕ → ℕ → Bool) → Caller → String → String → Action (State S) Reply
  delete_dir same who space_id prefix =
      if str_eq prefix ""
      then pure bad_request
      else handling (λ _. pure internal_error)
          (delete_files_by_prefix same (resolve_space_id space_id who) prefix (owner_filter who))
          answer_trashed

  -- One file of `BatchDelete`, and how the loop goes on.
  abbrev pub delete_one :
      Caller
      → String
      → Action (State S) Reply
      → Action (State S) Reply
      → FileRecord
      → Action (State S) Reply
  delete_one who id after_failure after_success f =
      if is_forbidden who f
      then after_failure
      else handling (λ _. after_failure) (delete_file id)
          λ _. do in_redis redis (unmark_file_exists f.filename); after_success

  -- The loop of `BatchDelete`, with the numbers of files deleted and failed so far.
  abbrev pub delete_each : Caller → List String → ℕ → ℕ → Action (State S) Reply
  delete_each who [] done failed = pure (batch done failed)
  delete_each who (id ∷ ids) done failed =
      handling (λ _. delete_each who ids done (suc failed)) (get_file id)
        (delete_one who id (delete_each who ids done (suc failed))
          (delete_each who ids (suc done) failed))

  unfoldable pub batch_delete : Caller → List String → Action (State S) Reply
  batch_delete who [] = pure bad_request
  batch_delete who (id ∷ ids) = delete_each who (id ∷ ids) 0 0
