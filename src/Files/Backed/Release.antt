-- ===== src/Files/Backed/Release.antt =====
-- An object goes only where no row refers to it (internal/handler/trash.go).
use first_golang.Prelude.{
  ℕ, String, ◌≡◌, ◌≢◌, sym, ◌∙◌, inl, inr, List, Elem, if◌then◌else◌, arith, count_if, str_eq_iff,
  ltb, Bool-cases,
}
use first_golang.Sql.Rows.{count_if-zero, first_where_sound, first_where}
use first_golang.Sql.Exec.{Conn, ok, pure, ignore, query, scan, ok_inj, scan_inj, ◌>>=◌}
use first_golang.Sql.Keeps.{Keeps, keeps_rules}
use first_golang.Sql.Leads.{Leads}
use first_golang.Sql.Learns.{
  Learns, Learns-query, Learns-pure, Learns-bind, Learns-then, Keeps-handling_read,
}
use first_golang.Sql.Within.{restrict}
use first_golang.Storage.Backend.{Storage, IsStorage}
use first_golang.Files.Defs.{FileRecord, State}
use first_golang.Files.Rows.{refers_to, trashed_id, any_trashed_id}
use first_golang.Files.Ops.{erase_files}
use first_golang.Files.Trash.{count_by_storage_path, permanently_delete_file}
use first_golang.Files.Handlers.Trash.{release_object, delete_object}
use first_golang.Files.Backed.{Backed, Keeps-erase}

module _ {S : Type 0} (st : Storage S) (lawful : IsStorage st) where
  -- The name of a stored path is the path.
  abbrev pub IsPlain : String → Type 0
  IsPlain path = st.name path ≡ path

  not_referred :
      (path : String) (fs : List FileRecord)
      → count_if (refers_to path) fs ≡ 0
      → (f : FileRecord) → Elem f fs
      → f.storage_path ≢ path
  not_referred path fs z f m e =
      let no_match = count_if-zero (refers_to path) f fs z m in
      let k = (str_eq_iff f.storage_path path).1 e in cc

  deleted :
      (path : String)
      → IsPlain path
      → (c : Conn (State S)) → Backed st c.tables
      → count_if (refers_to path) c.tables.files ≡ 0
      → Backed st (ignore (delete_object st path) c).1.tables
  deleted path p c h z f m =
      let (n, o) = h f m in
      let same =
        lawful.delete_spares path (restrict (λ t. t.disks) c) f.storage_path
          λ e. not_referred path c.tables.files z f m (sym n ∙ e ∙ p) in
      (n, λ q. o (sym same ∙ q))

  released :
      (path : String) (count : ℕ) (c : Conn (State S))
      → IsPlain path
      → Backed st c.tables
      → count_if (refers_to path) c.tables.files ≡ count
      → Backed st ((if ltb 0 count then pure tt else ignore (delete_object st path)) c).1.tables
  released path count c p h e = elim (Bool-cases (ltb 0 count)) [
    | inl b ↦ rw b h
    | inr b ↦ rw b (deleted path p c h (e ∙ ground arith))
  ]

  pub release_object-Keeps :
      (path : String) → IsPlain path → Keeps (Backed st) (release_object st path)
  unfolding release_object count_by_storage_path
  release_object-Keeps path p =
      Keeps-handling_read (λ _. pure tt) (λ t. ok (count_if (refers_to path) t.files))
        (λ count. if ltb 0 count then pure tt else ignore (delete_object st path))
        (λ e. search (keeps_rules) depth 3) λ count c h e. released path count c p h (ok_inj e)

  -- The row that is deleted for good had its object.
  pub permanently_delete_file-Learns :
      (id owner : String)
      → Leads
          (Backed st)
          (Learns (Backed st) (λ r. IsPlain r.0.storage_path))
          (permanently_delete_file id owner)
  unfolding permanently_delete_file
  permanently_delete_file-Learns id owner =
      Learns-bind {K = λ f. IsPlain f.storage_path}
        (query (λ t. scan (first_where (trashed_id id owner) t.files)))
        (λ f. erase_files (any_trashed_id id) >>= λ affected. pure (f, affected))
        (Learns-query (λ t. scan (first_where (trashed_id id owner) t.files)) plain_row)
        λ f p.
          Learns-then (erase_files (any_trashed_id id)) (λ affected. pure (f, affected))
            (Keeps-erase st (any_trashed_id id)) (λ affected. Learns-pure (f, affected) p)
    where
      plain_row :
          (t : State S) (f : FileRecord)
          → Backed st t
          → scan (first_where (trashed_id id owner) t.files) ≡ ok f
          → IsPlain f.storage_path
      plain_row t f h e =
          (h f (first_where_sound (trashed_id id owner) f t.files (scan_inj _ f e)).1).0
