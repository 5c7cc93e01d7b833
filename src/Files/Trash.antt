-- ===== src/Files/Trash.antt =====
-- The trash (internal/store/trash_repo.go).
use first_golang.Prelude.{ℕ, ◌-◌, ◌*◌, String, Bool, List, [], ◌∷◌, if◌then◌else◌, count_if, ◌==◌}
use first_golang.Sql.Rows.{rows_where, first_where, by_desc}
use first_golang.Sql.Exec.{ok, Action, ◌>>=◌, ◌>>◌, pure, query, now, scan, transaction, ⊤}
use first_golang.Files.Defs.{FileRecord, State}
use first_golang.Files.Ops.{change_files, erase_files, list_files}
use first_golang.Files.Rows.{
  has_id, trashed, in_trash, deletion_time, trashed_id, restored, any_trashed_id, refers_to,
  is_expired,
}

module _ {S : Type 0} where
  unfoldable pub delete_file : String → Action (State S) ℕ
  delete_file id = do t ← now; change_files (has_id id) (trashed t)

  abbrev pub trash_each : ℕ → List FileRecord → Action (State S) ⊤
  trash_each t [] = pure tt
  trash_each t (f ∷ fs) = change_files (has_id f.id) (trashed t) >>= λ _. trash_each t fs

  abbrev pub trash_listed : List FileRecord → Action (State S) (List FileRecord)
  trash_listed [] = pure []
  trash_listed (f ∷ fs) = do t ← now; transaction (trash_each t (f ∷ fs)); pure (f ∷ fs)

  unfoldable pub delete_files_by_prefix :
      (ℕ → ℕ → Bool) → String → String → String → Action (State S) (List FileRecord)
  delete_files_by_prefix same space_id prefix owner = do
    files ← list_files same space_id prefix owner
    trash_listed files

  unfoldable pub list_trashed_files : String → String → Action (State S) (List FileRecord)
  list_trashed_files space_id owner =
      query λ t. ok (by_desc deletion_time (rows_where (in_trash space_id owner) t.files))

  unfoldable pub restore_file : String → String → Action (State S) ℕ
  restore_file id owner = do t ← now; change_files (trashed_id id owner) (restored t)

  unfoldable pub permanently_delete_file : String → String → Action (State S) (FileRecord × ℕ)
  permanently_delete_file id owner = do
    f ← query (λ t. scan (first_where (trashed_id id owner) t.files))
    affected ← erase_files (any_trashed_id id)
    pure (f, affected)

  unfoldable pub count_by_storage_path : String → Action (State S) ℕ
  count_by_storage_path storage_path = query (λ t. ok (count_if (refers_to storage_path) t.files))

  abbrev pub erase_each : List FileRecord → Action (State S) ⊤
  erase_each [] = pure tt
  erase_each (f ∷ fs) = erase_files (any_trashed_id f.id) >>= λ _. erase_each fs

  abbrev pub erase_listed : List FileRecord → Action (State S) (List FileRecord)
  erase_listed [] = pure []
  erase_listed (f ∷ fs) = transaction (erase_each (f ∷ fs)) >> pure (f ∷ fs)

  -- `retention_days` is 30 where it is 0. A day has 86400 seconds.
  unfoldable pub cleanup_expired_trash : ℕ → Action (State S) (List FileRecord)
  cleanup_expired_trash retention_days = do
    t ← now
    let days : ℕ = if retention_days == 0 then 30 else retention_days
    expired ← query (λ s. ok (rows_where (is_expired (t - 86400 * days)) s.files))
    erase_listed expired
