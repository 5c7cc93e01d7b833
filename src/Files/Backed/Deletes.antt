-- ===== src/Files/Backed/Deletes.antt =====
-- The handlers that delete and restore files keep the objects of all rows
-- (internal/handler/file_delete.go, internal/handler/trash.go, cmd/server/main.go).
use first_golang.Prelude.{
  ℕ, suc, ◌-◌, ◌*◌, String, Option, none, some, Bool, refl, sym, List, [], ◌∷◌, inl, inr, Elem,
  if◌then◌else◌, str_eq, ◌==◌, length, ◌&&◌, subst,
}
use first_golang.Sql.Rows.{rows_where, Elem-rows_where, by_desc, Elem-by_desc}
use first_golang.Sql.Exec.{ok, Action, pure, query, transaction, ◌>>◌, now, ok_inj}
use first_golang.Sql.Keeps.{
  Keeps, keeps_rules, Keeps-transaction, Keeps-handling, Keeps-bind, Keeps-if, Keeps-now,
  Keeps-pure,
}
use first_golang.Sql.Leads.{Leads}
use first_golang.Sql.Learns.{
  Learns, Learns-query, Learns-pure, Learns-bind, Learns-then, Learns-Keeps, Keeps-handling_learnt,
}
use first_golang.Storage.Backend.{Storage, IsStorage}
use first_golang.Files.Defs.{FileRecord, State, Caller, owner_filter, is_admin, resolve_space_id}
use first_golang.Files.Rows.{in_trash, is_expired, deletion_time, trashed, has_id, any_trashed_id}
use first_golang.Files.Ops.{change_files, erase_files, get_file, unmark_file_exists}
use first_golang.Files.Trash.{
  trash_each, trash_listed, erase_each, delete_files_by_prefix, erase_listed,
  permanently_delete_file, list_trashed_files, cleanup_expired_trash, delete_file,
}
use first_golang.Files.Handlers.{
  Reply, bad_request, internal_error, not_found, batch, deleted_file, trashed_files, in_redis,
  is_forbidden,
}
use first_golang.Files.Handlers.Delete.{
  delete_file_by_id, delete_dir, unmark_each, answer_trashed, delete_one, delete_each, batch_delete,
}
use first_golang.Files.Handlers.Trash.{
  restore, restore_free, restore_target, answer_deleted, permanent_delete, empty_one, empty_each,
  empty_trash, release_each, clean_trash, release_object,
}
use first_golang.Files.Backed.{
  Backed, Keeps-change, Keeps-erase, get_file-Keeps, find_file_by_name-Keeps, list_files-Keeps,
  mark_file_exists-Keeps, unmark_file_exists-Keeps, delete_file-Keeps, restore_file-Keeps,
}
use first_golang.Files.Backed.Release.{
  IsPlain, release_object-Keeps, permanently_delete_file-Learns,
}

module _ {S : Type 0} (st : Storage S) (redis : Bool) where
  pub delete_file_by_id-Keeps :
      (who : Caller) (id : String) → Keeps (Backed st) (delete_file_by_id redis who id)
  unfolding delete_file_by_id
  delete_file_by_id-Keeps who id =
      search (keeps_rules, get_file-Keeps, delete_file-Keeps, unmark_file_exists-Keeps) depth 12

  trash_each-Keeps : (t : ℕ) (fs : List FileRecord) → Keeps (Backed st) (trash_each t fs)
  trash_each-Keeps t [] = Keeps-pure tt
  trash_each-Keeps t (f ∷ fs) =
      Keeps-bind (change_files (has_id f.id) (trashed t)) (λ _. trash_each t fs)
        (Keeps-change st (has_id f.id) (trashed t) (λ x. refl)) (λ _. trash_each-Keeps t fs)

  trash_listed-Keeps : (fs : List FileRecord) → Keeps (Backed st) (trash_listed fs)
  trash_listed-Keeps [] = Keeps-pure []
  trash_listed-Keeps (f ∷ fs) =
      Keeps-bind now (λ t. transaction (trash_each t (f ∷ fs)) >> pure (f ∷ fs)) Keeps-now
        λ t. search (Keeps-bind, Keeps-pure, Keeps-transaction, trash_each-Keeps) depth 5

  delete_files_by_prefix-Keeps :
      (same : ℕ → ℕ → Bool) (space_id prefix owner : String)
      → Keeps (Backed st) (delete_files_by_prefix same space_id prefix owner)
  unfolding delete_files_by_prefix
  delete_files_by_prefix-Keeps same space_id prefix owner =
      search (Keeps-bind, list_files-Keeps, trash_listed-Keeps) depth 4

  unmark_each-Keeps : (fs : List FileRecord) → Keeps (Backed st) (unmark_each redis fs)
  unmark_each-Keeps [] = Keeps-pure tt
  unmark_each-Keeps (f ∷ fs) =
      Keeps-bind (in_redis redis (unmark_file_exists f.filename)) (λ _. unmark_each redis fs)
        (search (keeps_rules, unmark_file_exists-Keeps) depth 4) (λ _. unmark_each-Keeps fs)

  answer_trashed-Keeps : (fs : List FileRecord) → Keeps (Backed st) (answer_trashed redis fs)
  answer_trashed-Keeps [] = Keeps-pure not_found
  answer_trashed-Keeps (f ∷ fs) =
      Keeps-bind (unmark_each redis (f ∷ fs)) (λ _. pure (trashed_files (length (f ∷ fs))))
        (unmark_each-Keeps (f ∷ fs)) (λ _. Keeps-pure (trashed_files (length (f ∷ fs))))

  pub delete_dir-Keeps :
      (same : ℕ → ℕ → Bool) (who : Caller) (space_id prefix : String)
      → Keeps (Backed st) (delete_dir redis same who space_id prefix)
  unfolding delete_dir
  delete_dir-Keeps same who space_id prefix =
      search (keeps_rules, delete_files_by_prefix-Keeps, answer_trashed-Keeps) depth 8

  delete_one-Keeps :
      (who : Caller) (id : String) (m n : Action (State S) Reply)
      → Keeps (Backed st) m
      → Keeps (Backed st) n
      → (f : FileRecord) → Keeps (Backed st) (delete_one redis who id m n f)
  delete_one-Keeps who id m n h k f = Keeps-if (is_forbidden who f) m _ h (
      Keeps-handling (λ _. m) (delete_file id)
        (λ _. in_redis redis (unmark_file_exists f.filename) >> n) (λ _. h)
        (delete_file-Keeps st id)
        λ _.
          Keeps-bind (in_redis redis (unmark_file_exists f.filename)) (λ _. n)
            (search (keeps_rules, unmark_file_exists-Keeps) depth 6) (λ _. k))

  delete_each-Keeps :
      (who : Caller) (ids : List String) (done failed : ℕ)
      → Keeps (Backed st) (delete_each redis who ids done failed)
  delete_each-Keeps who [] done failed = Keeps-pure (batch done failed)
  delete_each-Keeps who (id ∷ ids) done failed =
      let m = delete_each redis who ids done (suc failed) in
      let n = delete_each redis who ids (suc done) failed in
      let h = delete_each-Keeps who ids done (suc failed) in
      Keeps-handling (λ _. m) (get_file id) (delete_one redis who id m n) (λ _. h)
        (get_file-Keeps st id)
        (delete_one-Keeps who id m n h (delete_each-Keeps who ids (suc done) failed))

  pub batch_delete-Keeps :
      (who : Caller) (ids : List String) → Keeps (Backed st) (batch_delete redis who ids)
  unfolding batch_delete
  batch_delete-Keeps who [] = Keeps-pure bad_request
  batch_delete-Keeps who (id ∷ ids) = delete_each-Keeps who (id ∷ ids) 0 0

  list_trashed_files-Keeps :
      (space_id owner : String) → Keeps (Backed st) (list_trashed_files space_id owner)
  unfolding list_trashed_files
  list_trashed_files-Keeps space_id owner = search (keeps_rules) depth 4

  restore_free-Keeps :
      (who : Caller) (id : String) (target : FileRecord)
      → Keeps (Backed st) (restore_free redis who id target)
  restore_free-Keeps who id target =
      search (keeps_rules, restore_file-Keeps, mark_file_exists-Keeps) depth 12

  restore_target-Keeps :
      (who : Caller) (id : String) (o : Option FileRecord)
      → Keeps (Backed st) (restore_target redis who id o)
  restore_target-Keeps who id none = Keeps-pure not_found
  restore_target-Keeps who id (some target) =
      search (keeps_rules, restore_free-Keeps, find_file_by_name-Keeps) depth 8

  pub restore-Keeps :
      (who : Caller) (space_id id : String) → Keeps (Backed st) (restore redis who space_id id)
  unfolding restore
  restore-Keeps who space_id id =
      search (keeps_rules, list_trashed_files-Keeps, restore_target-Keeps) depth 8

module _ {S : Type 0} (st : Storage S) (lawful : IsStorage st) where
  answer_deleted-Keeps :
      (r : FileRecord × ℕ)
      → IsPlain st lawful r.0.storage_path
      → Keeps (Backed st) (answer_deleted st r)
  answer_deleted-Keeps (f, affected) p =
      Keeps-if (affected == 0) (pure not_found)
        (release_object st f.storage_path >> pure (deleted_file f.filename)) (Keeps-pure not_found)
        (Keeps-bind (release_object st f.storage_path) (λ _. pure (deleted_file f.filename))
          (release_object-Keeps st lawful f.storage_path p)
          (λ _. Keeps-pure (deleted_file f.filename)))

  pub permanent_delete-Keeps :
      (who : Caller) (id : String) → Keeps (Backed st) (permanent_delete st who id)
  unfolding permanent_delete
  permanent_delete-Keeps who id = Keeps-if (str_eq id "") _ _ (Keeps-pure bad_request) (
      Keeps-handling_learnt (λ _. pure internal_error)
        (permanently_delete_file id (owner_filter who)) (answer_deleted st)
        (permanently_delete_file-Learns st lawful id (owner_filter who))
        (λ e. Keeps-pure internal_error) answer_deleted-Keeps)

  -- The paths of the rows that a listing gave
  abbrev ArePlain : List FileRecord → Type 0
  ArePlain fs = (f : FileRecord) → Elem f fs → IsPlain st lawful f.storage_path

  empty_one-Keeps :
      (path : String) (m n : Action (State S) Reply)
      → IsPlain st lawful path
      → Keeps (Backed st) m
      → Keeps (Backed st) n
      → (r : FileRecord × ℕ) → Keeps (Backed st) (empty_one st path m n r)
  empty_one-Keeps path m n p h k (g, affected) =
      Keeps-if (affected == 0) m (release_object st path >> n) h (
        Keeps-bind (release_object st path) (λ _. n) (release_object-Keeps st lawful path p)
          (λ _. k))

  empty_each-Keeps :
      (owner : String) (fs : List FileRecord) (done failed : ℕ)
      → ArePlain fs
      → Keeps (Backed st) (empty_each st owner fs done failed)
  empty_each-Keeps owner [] done failed a = Keeps-pure (batch done failed)
  empty_each-Keeps owner (f ∷ fs) done failed a =
      let m = empty_each st owner fs done (suc failed) in
      let n = empty_each st owner fs (suc done) failed in
      let h = empty_each-Keeps owner fs done (suc failed) (λ g i. a g (inr i)) in
      Keeps-handling (λ _. m) (permanently_delete_file f.id owner) (empty_one st f.storage_path m n)
        (λ _. h) (Learns-Keeps _ (permanently_delete_file-Learns st lawful f.id owner))
        (empty_one-Keeps f.storage_path m n (a f (inl refl)) h
          (empty_each-Keeps owner fs (suc done) failed (λ g i. a g (inr i))))

  list_trashed_files-Learns :
      (space_id owner : String)
      → Leads (Backed st) (Learns (Backed st) ArePlain) (list_trashed_files space_id owner)
  unfolding list_trashed_files
  list_trashed_files-Learns space_id owner =
      Learns-query (λ t. ok (by_desc deletion_time (rows_where (in_trash space_id owner) t.files)))
        λ t fs h e f m.
          (h f
            (Elem-rows_where (in_trash space_id owner) f t.files
              (Elem-by_desc deletion_time f _ (subst (Elem f) (sym (ok_inj e)) m))).1).0

  pub empty_trash-Keeps :
      (who : Caller) (space_id : String) (all : Bool)
      → Keeps (Backed st) (empty_trash st who space_id all)
  unfolding empty_trash
  empty_trash-Keeps who space_id all =
      let owner : String = if is_admin who && all then "" else who.username in
      Keeps-handling_learnt (λ _. pure internal_error)
        (list_trashed_files (resolve_space_id space_id who) owner)
        (λ fs. empty_each st owner fs 0 0)
        (list_trashed_files-Learns (resolve_space_id space_id who) owner)
        (λ e. Keeps-pure internal_error) (λ fs a. empty_each-Keeps owner fs 0 0 a)

  release_each-Keeps : (fs : List FileRecord) → ArePlain fs → Keeps (Backed st) (release_each st fs)
  release_each-Keeps [] a = Keeps-pure tt
  release_each-Keeps (f ∷ fs) a =
      Keeps-bind (release_object st f.storage_path) (λ _. release_each st fs)
        (release_object-Keeps st lawful f.storage_path (a f (inl refl)))
        (λ _. release_each-Keeps fs (λ g i. a g (inr i)))

  erase_each-Keeps : (fs : List FileRecord) → Keeps (Backed st) (erase_each fs)
  erase_each-Keeps [] = Keeps-pure tt
  erase_each-Keeps (f ∷ fs) =
      Keeps-bind (erase_files (any_trashed_id f.id)) (λ _. erase_each fs)
        (Keeps-erase st (any_trashed_id f.id)) (λ _. erase_each-Keeps fs)

  erase_listed-Learns :
      (fs : List FileRecord)
      → ArePlain fs
      → Leads (Backed st) (Learns (Backed st) ArePlain) (erase_listed fs)
  erase_listed-Learns [] a = Learns-pure [] a
  erase_listed-Learns (f ∷ fs) a =
      Learns-then (transaction (erase_each (f ∷ fs))) (λ _. pure (f ∷ fs))
        (Keeps-transaction (Backed st) (erase_each (f ∷ fs)) (erase_each-Keeps (f ∷ fs)))
        (λ _. Learns-pure (f ∷ fs) a)

  pub clean_trash-Keeps : Keeps (Backed st) (clean_trash st)
  unfolding clean_trash cleanup_expired_trash
  clean_trash-Keeps =
      Keeps-handling_learnt (λ _. pure tt) (cleanup_expired_trash 30) (release_each st)
        (Learns-then now _ Keeps-now λ t.
          Learns-bind {K = ArePlain}
            (query (λ s. ok (rows_where (is_expired (t - 86400 * 30)) s.files))) erase_listed
            (Learns-query (λ s. ok (rows_where (is_expired (t - 86400 * 30)) s.files))
              λ s fs h e f m.
                (h f
                  (Elem-rows_where (is_expired (t - 86400 * 30)) f s.files
                    (subst (Elem f) (sym (ok_inj e)) m)).1).0)
            erase_listed-Learns)
        (λ e. Keeps-pure tt) release_each-Keeps
