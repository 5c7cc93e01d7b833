-- ===== src/Files/Sharing.antt =====
-- What the online editor (internal/handler/file_text.go) does to the files that share an object.
use Prim.Native.String.{len}
use first_golang.Prelude.{
  ℕ, String, some, ◌≡◌, refl, sym, ap, subst, ◌∙◌, List, count_if, ltb, str_eq, trim_prefix,
}
use first_golang.Sql.Rows.{first_where, update_where}
use first_golang.Sql.Exec.{
  Conn, Result, ok, err, Action, pure, handling, ◌>>=◌, now, otherwise, scan, scan_inj,
}
use first_golang.Sql.Keeps.{Keeps, Keeps-bind, Keeps-now, Keeps-pure, Keeps-statement}
use first_golang.Sql.Leads.{
  Leads, Always, Leads-Keeps, Leads-pure, Leads-either, Leads-bind, Leads-weaken, Leads-query_knows,
  Told,
}
use first_golang.Sql.Learns.{Leads-handling}
use first_golang.Sql.Within.{restrict}
use first_golang.Storage.Router.{local_prefix}
use first_golang.Storage.Router.Routes.{trim_prefix-append}
use first_golang.Storage.Router.Fronts.{Fronts, stored}
use first_golang.Storage.Backend.{Storage}
use first_golang.Files.Defs.{FileRecord, State, Caller, owner_filter}
use first_golang.Files.Rows.{has_id, owned, measured}
use first_golang.Files.Ops.{get_file, update_file_meta, change_files, with_files}
use first_golang.Files.Handlers.{
  Reply, updated, bad_request, forbidden, not_found, internal_error, is_forbidden, on_disk,
}
use first_golang.Files.Handlers.Text.{update_file_content, edit_found}

module _ {S : Type 0} (st local : Storage S) (fronts : Fronts st local) (id text : String)
    (files : List FileRecord) where
  -- The object of the row shows the new text.
  abbrev Shows : FileRecord → State S → Type 0
  Shows f t =
      (raw : String) → f.storage_path ≡ stored raw → st.content f.storage_path t.disks ≡ some text

  -- What holds where the answer is that the file has been updated.
  abbrev pub Edited : Result Reply → State S → Type 0
  Edited (ok (updated n hash)) t =
      (f : FileRecord) × (first_where (has_id id) files ≡ some f) × Shows f t
  Edited _ t = Unit

  abbrev Same : State S → Type 0
  Same t = t.files ≡ files

  abbrev Found : Result FileRecord → State S → Type 0
  Found (ok f) t = first_where (has_id id) files ≡ some f
  Found (err e) t = Unit

  found :
      (r : Result FileRecord) (t : State S)
      → Same t × Told (λ s. scan (first_where (has_id id) s.files)) r t
      → Found r t
  found (ok f) t (s, e) = subst (λ z. first_where (has_id id) z ≡ some f) s (scan_inj _ f e)
  found (err x) t h = tt

  get_file-Leads : Leads Same Found (get_file id)
  unfolding get_file
  get_file-Leads =
      Leads-weaken (get_file id) (λ t h. h) found
        (Leads-query_knows (λ s. scan (first_where (has_id id) s.files)))

  module _ (f : FileRecord) (e : first_where (has_id id) files ≡ some f) where
    abbrev Wrote : Result ℕ → State S → Type 0
    Wrote (ok n) t = Shows f t
    Wrote (err x) t = Unit

    wrote :
        (raw' : String) (r : Result ℕ) (c : Conn S) (t : State S)
        → raw' ≡ trim_prefix f.storage_path local_prefix
        → (local.write_file raw' text c).0 ≡ r
        → Wrote r (record t { disks = (local.write_file raw' text c).1.tables })
    wrote raw' (ok n) c t q h = λ raw p.
        let k : raw' ≡ raw =
          q ∙ ap (λ z. trim_prefix z local_prefix) p ∙ trim_prefix-append local_prefix raw in
        let d = (local.write_file raw' text c).1.tables in
        ap (λ z. st.content z d) (p ∙ ap stored (sym k))
        ∙ fronts.shows raw' d
        ∙ fronts.writable.write_stores raw' text n c h
    wrote raw' (err x) c t q h = tt

    write-Leads :
        Leads
          (λ t. Unit)
          Wrote
          (on_disk (local.write_file (trim_prefix f.storage_path local_prefix) text))
    write-Leads = record {
      at = λ c h.
          let raw = trim_prefix f.storage_path local_prefix in
          let d = restrict (λ t. t.disks) c in
          wrote raw (local.write_file raw text d).0 d c.tables refl refl;
    }

    hash-Keeps : (raw : String) → Keeps (Shows f) (otherwise "" (on_disk (local.hash_file raw)))
    hash-Keeps raw = record {
      at = λ c h r p. fronts.hash_aside raw (restrict (λ t. t.disks) c) f.storage_path ∙ h r p;
    }

    meta-Keeps : (n : ℕ) (hash owner : String) → Keeps (Shows f) (update_file_meta id n hash owner)
    unfolding update_file_meta
    meta-Keeps n hash owner = Keeps-bind now _ Keeps-now λ t.
        Keeps-bind (change_files (owned id owner) (measured n hash t)) (λ _. pure tt)
          (Keeps-statement
            (λ s. (
              ok (count_if (owned id owner) s.files),
              with_files (update_where (owned id owner) (measured n hash t)) s,
            ))
            (λ s h. h))
          (λ _. Keeps-pure tt)

    abbrev answer : Caller → ℕ → String → Action (State S) Reply
    answer who n hash =
        handling (λ _. pure internal_error) (update_file_meta id n hash (owner_filter who))
          λ _. pure (updated n hash)

    answer-Leads :
        (who : Caller) (n : ℕ) (hash : String) → Leads (Shows f) Edited (answer who n hash)
    answer-Leads who n hash =
        Leads-handling {M = Always (Shows f)} (λ _. pure internal_error)
          (update_file_meta id n hash (owner_filter who)) (λ _. pure (updated n hash))
          (Leads-Keeps _ (meta-Keeps n hash (owner_filter who)))
          (λ x. Leads-pure internal_error (λ t h. tt))
          (λ _. Leads-pure (updated n hash) (λ t h. (f, e, h)))

    write-Edited :
        (who : Caller)
        → Leads
            (λ t. Unit)
            Edited
            (handling
              (λ _. pure internal_error)
              (on_disk (local.write_file (trim_prefix f.storage_path local_prefix) text))
              λ n.
                otherwise "" (on_disk (local.hash_file (trim_prefix f.storage_path local_prefix)))
                >>= answer who n)
    write-Edited who =
        let raw = trim_prefix f.storage_path local_prefix in
        Leads-handling (λ _. pure internal_error) (on_disk (local.write_file raw text))
          (λ n. otherwise "" (on_disk (local.hash_file raw)) >>= answer who n) write-Leads
          (λ x. Leads-pure internal_error (λ t h. tt))
          λ n.
            Leads-bind {M = Always (Shows f)} (otherwise "" (on_disk (local.hash_file raw)))
              (answer who n) (Leads-Keeps _ (hash-Keeps raw)) (answer-Leads who n) (λ x t h. tt)

    found-Edited : (who : Caller) → Leads (λ t. Unit) Edited (edit_found local who id text f)
    found-Edited who = Leads-either (is_forbidden who f) _ _ (Leads-pure forbidden (λ t h. tt)) (
        Leads-either (ltb 10485760 (len text)) _ _ (Leads-pure bad_request (λ t h. tt))
          (write-Edited who))

  edit-Leads : (who : Caller) → Leads Same Edited (update_file_content local who id text)
  unfolding update_file_content
  edit-Leads who = Leads-either (str_eq id "") _ _ (Leads-pure bad_request (λ t h. tt)) (
      Leads-handling (λ _. pure not_found) (get_file id) (edit_found local who id text)
        get_file-Leads (λ x. Leads-pure not_found (λ t h. tt))
        λ f. record { at = λ c e. (found-Edited f e who).at c tt })

-- Behind a storage that shows what the local backend writes: when the editor answers that a file
-- has been updated and its path is one of the local storage, then every row with that path, of
-- whichever owner, shows the new text.
pub edit_reaches_sharers :
    {S : Type 0} (st local : Storage S) (who : Caller) (id text : String) (n : ℕ) (hash : String)
    → Fronts st local
    → (c : Conn (State S)) → (update_file_content local who id text c).0 ≡ ok (updated n hash)
    → (f : FileRecord) × (first_where (has_id id) c.tables.files ≡ some f)
      × ((g : FileRecord) (raw : String)
          → g.storage_path ≡ f.storage_path
          → f.storage_path ≡ stored raw
          → st.content g.storage_path (update_file_content local who id text c).1.tables.disks
            ≡ some text)
edit_reaches_sharers st local who id text n hash fronts c r =
    let (f, e, shows) =
      subst
        (λ z.
          Edited st local fronts id text c.tables.files z
            (update_file_content local who id text c).1.tables)
        r ((edit-Leads st local fronts id text c.tables.files who).at c refl) in
    (
      f,
      e,
      λ g raw q p.
          ap (λ z. st.content z (update_file_content local who id text c).1.tables.disks) q
          ∙ shows raw p,
    )
