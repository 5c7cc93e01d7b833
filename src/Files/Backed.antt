-- ===== src/Files/Backed.antt =====
-- The invariant that ties the rows to the objects, and the statements that keep it.
pub mod Release
pub mod Deletes
pub mod Creates
pub mod Edits
pub mod Reach
use first_golang.Prelude.{
  ℕ, String, Option, none, some, Bool, true, false, ◌≡◌, ◌≢◌, refl, sym, ap, subst, ◌∙◌, ◌⊎◌, inl,
  inr, List, [], ◌∷◌, ◌++◌, Elem, any, if◌then◌else◌, arith, count_if, str_eq,
}
use first_golang.Sql.Rows.{
  update_where, remove_where, Elem-update_where, Elem-remove_where, append_one-Elem, rows_where,
  Elem-rows_where,
}
use first_golang.Sql.Exec.{
  Conn, Result, ok, err, unique, Error, Action, statement, update, ⊤, query,
}
use first_golang.Sql.Keeps.{Keeps, Keeps-statement, Keeps-update, Keeps-transaction, keeps_rules}
use first_golang.Sql.Within.{within}
use first_golang.Storage.Backend.{Storage, Reads}
use first_golang.Files.Defs.{FileRecord, State, Caller}
use first_golang.Files.Handlers.{account_pat_quota}
use first_golang.Files.Rows.{named, measured, trashed, restored, charged, drop_name}
use first_golang.Files.Ops.{
  with_files, change_files, erase_files, add_file, insert_row, create_file, get_file,
  find_file_by_name, get_file_by_hash, list_files, update_filename, update_file_meta,
  mark_file_exists, unmark_file_exists, add_api_token_quota_used,
}
use first_golang.Files.Trash.{
  delete_file, trash_each, delete_files_by_prefix, list_trashed_files, restore_file,
}

module _ {S : Type 0} (st : Storage S) where
  -- The path of the row is written with its prefix, and the object is there.
  abbrev pub HasObject : S → FileRecord → Type 0
  HasObject d f = (st.name f.storage_path ≡ f.storage_path) × (st.content f.storage_path d ≢ none)

  -- Every row has its object, those in the trash too.
  abbrev pub Backed : State S → Type 0
  Backed t = (f : FileRecord) → Elem f t.files → HasObject t.disks f

  -- A change of the row that leaves the path.
  abbrev KeepsPath : (FileRecord → FileRecord) → Type 0
  KeepsPath g = (f : FileRecord) → (g f).storage_path ≡ f.storage_path

  moved :
      (d : S) (f g : FileRecord) → f.storage_path ≡ g.storage_path → HasObject d g → HasObject d f
  moved d f g e h = rw e h

  either_path :
      (b : Bool) (g : FileRecord → FileRecord)
      → KeepsPath g
      → (x : FileRecord) → (if b then g x else x).storage_path ≡ x.storage_path
  either_path true g k x = k x
  either_path false g k x = refl

  pub Keeps-change :
      (p : FileRecord → Bool) (g : FileRecord → FileRecord)
      → KeepsPath g
      → Keeps Backed (change_files p g)
  Keeps-change p g k =
      Keeps-statement (λ t. (ok (count_if p t.files), with_files (update_where p g) t))
        λ t h f m.
          let (x, n, e) = Elem-update_where p g f t.files m in
          moved t.disks f x (ap (λ z. z.storage_path) e ∙ either_path (p x) g k x) (h x n)

  pub Keeps-erase : (p : FileRecord → Bool) → Keeps Backed (erase_files p)
  Keeps-erase p =
      Keeps-statement (λ t. (ok (count_if p t.files), with_files (remove_where p) t))
        λ t h f m. h f (Elem-remove_where p f t.files m).1

  -- Every row and one more have their objects.
  abbrev pub BackedWith : FileRecord → State S → Type 0
  BackedWith f t = HasObject t.disks f × Backed t

  pub append_row-Backed :
      (f : FileRecord) (t : State S)
      → HasObject t.disks f
      → Backed t
      → Backed (with_files (λ fs. fs ++ f ∷ []) t)
  append_row-Backed f t o h g m = elim (append_one-Elem g f t.files m) [
    | inl e ↦ subst (HasObject t.disks) e o
    | inr n ↦ h g n
  ]

  added :
      (f : FileRecord) (b : Bool) (t : State S) → BackedWith f t → BackedWith f (insert_row b f t).1
  added f true t h = h
  added f false t (o, h) = (o, append_row-Backed f t o h)

  -- A row whose object is there may be added.
  pub create_file-Keeps : (f : FileRecord) → Keeps (BackedWith f) (create_file f)
  unfolding create_file
  create_file-Keeps f =
      let g : FileRecord = record f { deleted_at = none } in
      Keeps-statement (add_file g) (λ t h. added g (any (λ x. str_eq x.id f.id) t.files) t h)

  pub get_file-Keeps : (id : String) → Keeps Backed (get_file id)
  unfolding get_file
  get_file-Keeps id = search (keeps_rules) depth 4

  pub find_file_by_name-Keeps :
      (space_id filename owner : String) → Keeps Backed (find_file_by_name space_id filename owner)
  unfolding find_file_by_name
  find_file_by_name-Keeps space_id filename owner = search (keeps_rules) depth 4

  pub list_files-Keeps :
      (same : ℕ → ℕ → Bool) (space_id prefix owner : String)
      → Keeps Backed (list_files same space_id prefix owner)
  unfolding list_files
  list_files-Keeps same space_id prefix owner = search (keeps_rules) depth 4

  pub update_filename-Keeps :
      (id filename owner : String) → Keeps Backed (update_filename id filename owner)
  unfolding update_filename
  update_filename-Keeps id filename owner = search (keeps_rules, Keeps-change) depth 8

  pub update_file_meta-Keeps :
      (id : String) (size : ℕ) (hash owner : String)
      → Keeps Backed (update_file_meta id size hash owner)
  unfolding update_file_meta
  update_file_meta-Keeps id size hash owner = search (keeps_rules, Keeps-change) depth 8

  pub mark_file_exists-Keeps : (filename : String) → Keeps Backed (mark_file_exists filename)
  unfolding mark_file_exists
  mark_file_exists-Keeps filename =
      Keeps-update (λ t. record t { marked = filename ∷ t.marked }) (λ t h. h)

  pub unmark_file_exists-Keeps : (filename : String) → Keeps Backed (unmark_file_exists filename)
  unfolding unmark_file_exists
  unmark_file_exists-Keeps filename =
      Keeps-update (λ t. record t { marked = drop_name filename t.marked }) (λ t h. h)

  pub add_api_token_quota_used-Keeps :
      (id : String) (size : ℕ) → Keeps Backed (add_api_token_quota_used id size)
  unfolding add_api_token_quota_used
  add_api_token_quota_used-Keeps id size =
      Keeps-update (λ t. record t { tokens = charged id size t.tokens }) (λ t h. h)

  pub account_pat_quota-Keeps : (who : Caller) (n : ℕ) → Keeps Backed (account_pat_quota who n)
  unfolding account_pat_quota
  account_pat_quota-Keeps who n = search (keeps_rules, add_api_token_quota_used-Keeps) depth 6

  pub delete_file-Keeps : (id : String) → Keeps Backed (delete_file id)
  unfolding delete_file
  delete_file-Keeps id = search (keeps_rules, Keeps-change) depth 8

  pub restore_file-Keeps : (id owner : String) → Keeps Backed (restore_file id owner)
  unfolding restore_file
  restore_file-Keeps id owner = search (keeps_rules, Keeps-change) depth 8
