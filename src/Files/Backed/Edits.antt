-- ===== src/Files/Backed/Edits.antt =====
-- The handlers that share, edit and rename files keep the objects of all rows
-- (internal/handler/upload_check.go, internal/handler/file_text.go, internal/handler/file_dir.go).
use Prim.Native.String.{len}
use first_golang.Prelude.{
  ℕ, suc, String, none, Bool, ◌≡◌, ◌≢◌, sym, ap, ◌∙◌, List, [], ◌∷◌, inl, inr, not, ltb, ◌&◌, ◌==◌,
  if◌then◌else◌, str_eq, str_eq_iff, Bool-cases, trim_prefix,
}
use first_golang.Sql.Exec.{
  Conn, Result, ok, err, Error, Action, pure, handling, ◌>>=◌, ◌>>◌, now, otherwise, scan, scan_inj,
}
use first_golang.Sql.Rows.{rows_where, Elem-rows_where, by_desc, Elem-by_desc, head, head-Elem}
use first_golang.Sql.Keeps.{
  Keeps, keeps_rules, Keeps-bind, Keeps-otherwise, Keeps-pure, Keeps-now, Keeps-handling, Keeps-if,
}
use first_golang.Sql.Leads.{
  Leads, Always, Leads-Keeps, Leads-pure, Leads-next, Leads-either, Leads-weaken, Leads-query_knows,
  Keeps-Leads, Told,
}
use first_golang.Sql.Learns.{Leads-handling}
use first_golang.Sql.Within.{restrict}
use first_golang.Storage.Backend.{Storage, Reads}
use first_golang.Storage.Router.{local_prefix}
use first_golang.Storage.Router.Fronts.{Fronts, stored}
use first_golang.Files.Defs.{FileRecord, State, Caller, normalize_write_space, owner_filter}
use first_golang.Files.Rows.{has_hash}
use first_golang.Files.Ops.{
  get_file, update_file_meta, get_file_by_hash, find_file_by_name, create_file, update_filename,
  mark_file_exists, unmark_file_exists,
}
use first_golang.Files.Handlers.{
  Reply, updated, forbidden, is_forbidden, instant_upload, unauthorized, too_large, check_pat_quota,
  bad_request, batch, not_found, conflict, internal_error, upload_needed, on_disk, in_redis,
  account_pat_quota,
}
use first_golang.Files.Handlers.Text.{
  check_upload, shared_row, share_at, share_free, share_object, is_no_rows, get_file_content,
  edit_found, update_file_content,
}
use first_golang.Files.Handlers.Dir.{
  rename_free, rename, move_each, move_listed, targets_of, move_dir,
}
use first_golang.Files.Backed.{
  Backed, BackedWith, create_file-Keeps, get_file-Keeps, find_file_by_name-Keeps, list_files-Keeps,
  update_filename-Keeps, update_file_meta-Keeps, mark_file_exists-Keeps, unmark_file_exists-Keeps,
  account_pat_quota-Keeps,
}

module _ {S : Type 0} (st local : Storage S) (fronts : Fronts st local) where
  -- A call of the storage that changes no object
  reading-Keeps : {A : Type 0} (m : Action S A) → Reads st m → Keeps (Backed st) (on_disk m)
  reading-Keeps m k = record {
    at = λ c h f i.
        let (p, x) = h f i in (p, λ e. x (sym (k (restrict (λ t. t.disks) c) f.storage_path) ∙ e));
  }

  -- A write to any local path leaves an object at every path that had one.
  still_there :
      (raw text path : String) (c : Conn S)
      → st.name path ≡ path
      → st.content path c.tables ≢ none
      → st.content path (local.write_file raw text c).1.tables ≢ none
  still_there raw text path c p o = elim (Bool-cases (str_eq path (stored raw))) [
    | inl b ↦
        let e = (str_eq_iff path (stored raw)).0 b in
        let before = ap (λ z. st.content z c.tables) e ∙ fronts.shows raw c.tables in
        let after =
          ap (λ z. st.content z (local.write_file raw text c).1.tables) e
          ∙ fronts.shows raw (local.write_file raw text c).1.tables in
        λ z. fronts.writable.write_keeps raw text c (λ y. o (before ∙ y)) (sym after ∙ z)
    | inr b ↦
        let apart : path ≢ stored raw = λ e. let k = (str_eq_iff path (stored raw)).1 e in cc in
        λ z. o (sym (fronts.write_aside raw text c path (λ e. apart (sym p ∙ e))) ∙ z)
  ]

  write-Keeps : (raw text : String) → Keeps (Backed st) (on_disk (local.write_file raw text))
  write-Keeps raw text = record {
    at = λ c h f i.
        let (p, x) = h f i in
        (p, still_there raw text f.storage_path (restrict (λ t. t.disks) c) p x);
  }

  hash-Keeps : (raw : String) → Keeps (Backed st) (on_disk (local.hash_file raw))
  hash-Keeps raw = reading-Keeps (local.hash_file raw) (fronts.hash_aside raw)

  written-Keeps :
      (who : Caller) (id raw : String) (n : ℕ)
      → Keeps (Backed st) (
          otherwise "" (on_disk (local.hash_file raw)) >>= λ hash.
          handling
            (λ _. pure internal_error)
            (update_file_meta id n hash (owner_filter who))
            λ _. pure (updated n hash))
  written-Keeps who id raw n = search (keeps_rules, hash-Keeps, update_file_meta-Keeps) depth 8

  edit_found-Keeps :
      (who : Caller) (id content : String) (f : FileRecord)
      → Keeps (Backed st) (edit_found local who id content f)
  edit_found-Keeps who id content f =
      let raw = trim_prefix f.storage_path local_prefix in
      Keeps-if (is_forbidden who f) _ _ (Keeps-pure forbidden) (
        Keeps-if (ltb 10485760 (len content)) _ _ (Keeps-pure bad_request) (
          Keeps-handling (λ _. pure internal_error) (on_disk (local.write_file raw content)) _
            (λ _. Keeps-pure internal_error) (write-Keeps raw content) (written-Keeps who id raw)))

  pub update_file_content-Keeps :
      (who : Caller) (id content : String)
      → Keeps (Backed st) (update_file_content local who id content)
  unfolding update_file_content
  update_file_content-Keeps who id content = Keeps-if (str_eq id "") _ _ (Keeps-pure bad_request) (
      Keeps-handling (λ _. pure not_found) (get_file id) (edit_found local who id content)
        (λ _. Keeps-pure not_found) (get_file-Keeps st id) (edit_found-Keeps who id content))

  read-Keeps : (path : String) → Keeps (Backed st) (on_disk (st.read_file path 0))
  read-Keeps path = reading-Keeps (st.read_file path 0) (fronts.lawful.read_reads path 0)

  pub get_file_content-Keeps :
      (who : Caller) (id : String) → Keeps (Backed st) (get_file_content st who id)
  unfolding get_file_content
  get_file_content-Keeps who id = search (keeps_rules, get_file-Keeps, read-Keeps) depth 10

module _ {S : Type 0} (st : Storage S) (redis : Bool) where
  rename_free-Keeps :
      (who : Caller) (f : FileRecord) (filename : String)
      → Keeps (Backed st) (rename_free redis who f filename)
  rename_free-Keeps who f filename =
      search (keeps_rules, update_filename-Keeps, mark_file_exists-Keeps, unmark_file_exists-Keeps)
        depth 10

  pub rename-Keeps :
      (validate : String → Bool) (who : Caller) (id filename : String)
      → Keeps (Backed st) (rename redis validate who id filename)
  unfolding rename
  rename-Keeps validate who id filename =
      search (keeps_rules, get_file-Keeps, find_file_by_name-Keeps, rename_free-Keeps) depth 12

  moved-Keeps :
      (old new : String) (m : Action (State S) Reply)
      → Keeps (Backed st) m
      → Keeps
          (Backed st)
          (in_redis redis (unmark_file_exists old) >> (in_redis redis (mark_file_exists new) >> m))
  moved-Keeps old new m h =
      Keeps-bind (in_redis redis (unmark_file_exists old))
        (λ _. in_redis redis (mark_file_exists new) >> m)
        (search (keeps_rules, unmark_file_exists-Keeps) depth 4)
        λ _.
          Keeps-bind (in_redis redis (mark_file_exists new)) (λ _. m)
            (search (keeps_rules, mark_file_exists-Keeps) depth 4) (λ _. h)

  move_each-Keeps :
      (old new owner : String) (fs : List FileRecord) (done failed : ℕ)
      → Keeps (Backed st) (move_each redis old new owner fs done failed)
  move_each-Keeps old new owner [] done failed = Keeps-pure (batch done failed)
  move_each-Keeps old new owner (f ∷ fs) done failed =
      let filename : String = new & trim_prefix f.filename old in
      let m = move_each redis old new owner fs done (suc failed) in
      let n = move_each redis old new owner fs (suc done) failed in
      Keeps-handling (λ _. m) (update_filename f.id filename owner)
        (λ _.
          in_redis redis (unmark_file_exists f.filename)
          >> (in_redis redis (mark_file_exists filename) >> n))
        (λ _. move_each-Keeps old new owner fs done (suc failed))
        (update_filename-Keeps st f.id filename owner)
        (λ _.
          moved-Keeps f.filename filename n (move_each-Keeps old new owner fs (suc done) failed))

  move_listed-Keeps :
      (old new owner : String) (fs gs : List FileRecord)
      → Keeps (Backed st) (move_listed redis old new owner fs gs)
  move_listed-Keeps old new owner [] gs = Keeps-pure not_found
  move_listed-Keeps old new owner (f ∷ fs) [] = move_each-Keeps old new owner (f ∷ fs) 0 0
  move_listed-Keeps old new owner (f ∷ fs) (g ∷ gs) = Keeps-pure conflict

  targets_of-Keeps :
      (same : ℕ → ℕ → Bool) (space new owner : String) (fs : List FileRecord)
      → Keeps (Backed st) (targets_of redis same space new owner fs)
  targets_of-Keeps same space new owner [] = Keeps-pure []
  targets_of-Keeps same space new owner (f ∷ fs) =
      Keeps-otherwise [] _ (list_files-Keeps st same space new owner)

  pub move_dir-Keeps :
      (same : ℕ → ℕ → Bool) (who : Caller) (old new space_id : String)
      → Keeps (Backed st) (move_dir redis same who old new space_id)
  unfolding move_dir
  move_dir-Keeps same who old new space_id =
      search (keeps_rules, list_files-Keeps, targets_of-Keeps, move_listed-Keeps) depth 10

  abbrev shared : Caller → String → FileRecord → Action (State S) Reply
  shared who filename row =
      account_pat_quota who row.size
      >> (in_redis redis (mark_file_exists filename) >> pure (instant_upload row))

  shared-Keeps :
      (who : Caller) (filename : String) (row : FileRecord)
      → Keeps (Backed st) (shared who filename row)
  shared-Keeps who filename row =
      search (keeps_rules, account_pat_quota-Keeps, mark_file_exists-Keeps) depth 8

  -- The row that was found has its object.
  abbrev Found : Result FileRecord → State S → Type 0
  Found (ok f) t = BackedWith st f t
  Found (err e) t = Backed st t

  found :
      (hash owner : String) (size : ℕ) (r : Result FileRecord) (t : State S)
      → Backed st t
      → Told
          (λ s.
            scan
              (head (by_desc (λ f. f.created_at) (rows_where (has_hash hash owner size) s.files))))
          r
          t
      → Found r t
  found hash owner size (ok f) t h e =
      let listed = rows_where (has_hash hash owner size) t.files in
      let i = head-Elem f (by_desc (λ g. g.created_at) listed) (scan_inj _ f e) in
      (
        h f
            (Elem-rows_where (has_hash hash owner size) f t.files
              (Elem-by_desc (λ g. g.created_at) f listed i)).1,
        h,
      )
  found hash owner size (err x) t h e = h

  get_file_by_hash-Leads :
      (hash owner : String) (size : ℕ) → Leads (Backed st) Found (get_file_by_hash hash owner size)
  unfolding get_file_by_hash
  get_file_by_hash-Leads hash owner size =
      Leads-weaken (get_file_by_hash hash owner size) (λ t h. h)
        (λ r t h. found hash owner size r t h.0 h.1)
        (Leads-query_knows (λ s.
          scan
            (head (by_desc (λ f. f.created_at) (rows_where (has_hash hash owner size) s.files)))))

  find-Keeps :
      (f : FileRecord) (space filename owner : String)
      → Keeps (BackedWith st f) (find_file_by_name space filename owner)
  unfolding find_file_by_name
  find-Keeps f space filename owner = search (keeps_rules) depth 3

  share_at-Keeps :
      (who : Caller) (filename : String) (row : FileRecord)
      → Leads (BackedWith st row) (Always (Backed st)) (share_at redis who filename row)
  share_at-Keeps who filename row =
      Leads-handling {M = Always (BackedWith st row)} (λ _. pure internal_error) (create_file row) _
        (Leads-Keeps (create_file row) (create_file-Keeps st row))
        (λ e. Leads-pure internal_error (λ t h. h.1))
        λ _.
          Leads-weaken (shared who filename row) (λ t h. h.1) (λ r t h. h)
            (Leads-Keeps (shared who filename row) (shared-Keeps who filename row))

  share_object-Leads :
      (who : Caller) (fresh filename space : String) (source : FileRecord)
      → Leads
          (BackedWith st source)
          (Always (Backed st))
          (share_object redis who fresh filename space source)
  share_object-Leads who fresh filename space source =
      Leads-next now
        (λ t. share_at redis who filename (shared_row who fresh filename space source t)) Keeps-now
        (λ t h. h.1)
        (λ t. share_at-Keeps who filename (shared_row who fresh filename space source t))

  share_free-Leads :
      (who : Caller) (fresh filename space : String) (source : FileRecord)
      → Leads
          (BackedWith st source)
          (Always (Backed st))
          (share_free redis who fresh filename space source)
  share_free-Leads who fresh filename space source =
      let h = share_object-Leads who fresh filename space source in
      Leads-handling {M = Always (BackedWith st source)}
        (λ _. share_object redis who fresh filename space source)
        (find_file_by_name space filename who.username) _
        (Leads-Keeps _ (find-Keeps source space filename who.username)) (λ e. h)
        λ existing.
          Leads-either (not (str_eq existing.id source.id)) (pure conflict) _
            (Leads-pure conflict (λ t k. k.1)) h

  missing-Keeps :
      (e : Error)
      → Keeps (Backed st) (if is_no_rows e then pure upload_needed else pure internal_error)
  missing-Keeps e = search (keeps_rules) depth 3

  pub check_upload-Keeps :
      (validate : String → Bool) (who : Caller) (fresh filename : String) (size : ℕ)
      (hash space_id : String)
      → Keeps (Backed st) (check_upload redis validate who fresh filename size hash space_id)
  unfolding check_upload
  check_upload-Keeps validate who fresh filename size hash space_id =
      Keeps-if (not (validate filename)) _ _ (Keeps-pure bad_request) (
        Keeps-if (size == 0) _ _ (Keeps-pure bad_request) (
          Keeps-if (not (len hash == 64)) _ _ (Keeps-pure bad_request) (
            Keeps-if (str_eq who.username "") _ _ (Keeps-pure unauthorized) (
              Keeps-if (not (check_pat_quota who size)) _ _ (Keeps-pure too_large) (
                Keeps-Leads _ (
                  Leads-handling {M = Found} _ (get_file_by_hash hash "" size) _
                    (get_file_by_hash-Leads hash "" size) (λ e. Leads-Keeps _ (missing-Keeps e))
                    (share_free-Leads who fresh filename
                      (normalize_write_space space_id who.username))))))))
