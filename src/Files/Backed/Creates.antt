-- ===== src/Files/Backed/Creates.antt =====
-- The handlers that create files keep the objects of all rows, where the new object is at a path
-- that no row has (internal/handler/file_text.go, internal/handler/file_dir.go).
use first_golang.Prelude.{
  ℕ, String, none, some, Bool, true, false, ◌≡◌, ◌≢◌, refl, sym, ◌∙◌, Elem, not, ltb, ◌&◌, str_eq,
  any,
}
use Prim.Native.String.{len}
use first_golang.Sql.Exec.{
  Conn, Result, ok, err, Action, pure, ignore, ⊤, handling, ◌>>◌, now, otherwise,
}
use first_golang.Sql.Keeps.{
  Keeps, keeps_rules, Keeps-bind, Keeps-otherwise, Keeps-ignore, Keeps-pure, Keeps-now,
}
use first_golang.Sql.Leads.{
  Leads, Always, Leads-statement, Leads-kept, Leads-Keeps, Leads-pure, Leads-next, Leads-either,
}
use first_golang.Sql.Learns.{Leads-handling}
use first_golang.Sql.Within.{restrict}
use first_golang.Storage.Backend.{Storage, Reads}
use first_golang.Storage.Router.{prefix_storage_path}
use first_golang.Storage.Router.Fronts.{Fronts, stored}
use first_golang.Files.Defs.{FileRecord, State, Caller, normalize_write_space, owner_filter}
use first_golang.Files.Ops.{find_file_by_name, mark_file_exists, add_file, insert_row, create_file}
use first_golang.Files.Handlers.{
  Reply, internal_error, bad_request, too_large, conflict, created, in_redis, check_pat_quota,
  on_disk, account_pat_quota,
}
use first_golang.Files.Handlers.Text.{create_text_file, record_text, hash_and_record, write_text}
use first_golang.Files.Handlers.Dir.{place_row, make_dir, mkdir}
use first_golang.Files.Backed.{
  Backed, append_row-Backed, account_pat_quota-Keeps, mark_file_exists-Keeps,
}

module _ {S : Type 0} (st local : Storage S) (fronts : Fronts st local) (raw : String) where
  -- No row has the path.
  abbrev pub Free : State S → Type 0
  Free t = Backed st t × ((f : FileRecord) → Elem f t.files → f.storage_path ≢ stored raw)

  abbrev pub Ready : State S → Type 0
  Ready t = Free t × (st.content (stored raw) t.disks ≢ none)

  -- A call of the storage that changes at most the object at the free path
  aside-Keeps :
      {A : Type 0} (m : Action S A)
      → ((c : Conn S) (q : String)
          → st.name q ≢ stored raw
          → st.content q (m c).1.tables ≡ st.content q c.tables)
      → Keeps Free (on_disk m)
  aside-Keeps m k = record {
    at = λ c (h, n). (
      λ f i.
          let (p, o) = h f i in
          (
            p,
            λ e.
                o (sym (k (restrict (λ t. t.disks) c) f.storage_path (λ z. n f i (sym p ∙ z))) ∙ e),
          ),
      n,
    );
  }

  -- A call that changes no object
  reading-Keeps : {A : Type 0} (m : Action S A) → Reads st m → Keeps Ready (on_disk m)
  reading-Keeps m k = record {
    at = λ c ((h, n), o). (
      (
        λ f i.
            let (p, x) = h f i in
            (p, λ e. x (sym (k (restrict (λ t. t.disks) c) f.storage_path) ∙ e)),
        n,
      ),
      λ e. o (sym (k (restrict (λ t. t.disks) c) (stored raw)) ∙ e),
    );
  }

  -- After the file is written it is there.
  abbrev Written : Result ℕ → State S → Type 0
  Written (ok n) t = Ready t
  Written (err e) t = Free t

  written :
      (text : String) (r : Result ℕ) (c : Conn S) (t : State S)
      → (local.write_file raw text c).0 ≡ r
      → Free (record t { disks = (local.write_file raw text c).1.tables })
      → Written r (record t { disks = (local.write_file raw text c).1.tables })
  written text (ok n) c t e h =
      let k =
        fronts.shows raw (local.write_file raw text c).1.tables
        ∙ fronts.writable.write_stores raw text n c e in
      (h, λ z. let w : none ≡ some text = sym z ∙ k in cc)
  written text (err x) c t e h = h

  write-Leads : (text : String) → Leads Free Written (on_disk (local.write_file raw text))
  write-Leads text = record {
    at = λ c h.
        let d = restrict (λ t. t.disks) c in
        written text (local.write_file raw text d).0 d c.tables refl
          ((aside-Keeps (local.write_file raw text) (fronts.write_aside raw text)).at c h);
  }

  -- The row is added, or the path is still free.
  abbrev Added : Result ⊤ → State S → Type 0
  Added (ok n) t = Backed st t
  Added (err e) t = Free t

  inserted :
      (row : FileRecord) (b : Bool) (t : State S)
      → row.storage_path ≡ stored raw
      → Ready t
      → Added (insert_row b row t).0 (insert_row b row t).1
  inserted row true t e h = h.0
  inserted row false t e ((h, n), o) = append_row-Backed st row t (rw e (fronts.is_named raw, o)) h

  create-Leads :
      (row : FileRecord) → row.storage_path ≡ stored raw → Leads Ready Added (create_file row)
  unfolding create_file
  create-Leads row e =
      let new : FileRecord = record row { deleted_at = none } in
      Leads-statement (add_file new)
        (λ t h. inserted new (any (λ g. str_eq g.id row.id) t.files) t e h) (λ t h. h.0)

  -- A new row, and what follows it where it is added and where it is not.
  row-Leads :
      (row : FileRecord) (undo answer : Action (State S) Reply)
      → row.storage_path ≡ stored raw
      → Keeps Free undo
      → Keeps (Backed st) answer
      → Leads Ready (Always (Backed st)) (handling (λ _. undo) (create_file row) λ _. answer)
  row-Leads row undo answer e h k =
      Leads-handling (λ _. undo) (create_file row) (λ _. answer) (create-Leads row e)
        (λ x. Leads-kept undo h (λ t p. p.0)) (λ a. Leads-Keeps answer k)

  -- The object is written, and then comes the row.
  object-Leads :
      (text : String) (next : ℕ → Action (State S) Reply)
      → ((n : ℕ) → Leads Ready (Always (Backed st)) (next n))
      → Leads Free
          (Always (Backed st))
          (handling (λ _. pure internal_error) (on_disk (local.write_file raw text)) next)
  object-Leads text next k =
      Leads-handling (λ _. pure internal_error) (on_disk (local.write_file raw text)) next
        (write-Leads text) (λ x. Leads-pure internal_error (λ t p. p.0)) k

  hash-Keeps : Keeps Ready (otherwise "" (on_disk (local.hash_file raw)))
  hash-Keeps =
      Keeps-otherwise "" (on_disk (local.hash_file raw))
        (reading-Keeps (local.hash_file raw) (fronts.hash_aside raw))

  undo_text-Keeps : Keeps Free (ignore (on_disk (local.delete_file raw)) >> pure internal_error)
  undo_text-Keeps =
      Keeps-bind (ignore (on_disk (local.delete_file raw))) (λ _. pure internal_error)
        (Keeps-ignore (on_disk (local.delete_file raw))
          (aside-Keeps (local.delete_file raw) (fronts.delete_aside raw)))
        (λ _. Keeps-pure internal_error)

module _ {S : Type 0} (st local : Storage S) (fronts : Fronts st local) (redis : Bool) where
  find-Keeps :
      (raw space filename owner : String)
      → Keeps (Free st local fronts raw) (find_file_by_name space filename owner)
  unfolding find_file_by_name
  find-Keeps raw space filename owner = search (keeps_rules) depth 3

  -- What follows a new row
  abbrev noted : Caller → String → String → ℕ → Action (State S) Reply
  noted who fresh filename n =
      account_pat_quota who n
      >> (in_redis redis (mark_file_exists filename) >> pure (created fresh))

  noted-Keeps :
      (who : Caller) (fresh filename : String) (n : ℕ)
      → Keeps (Backed st) (noted who fresh filename n)
  noted-Keeps who fresh filename n =
      search (keeps_rules, account_pat_quota-Keeps, mark_file_exists-Keeps) depth 6

  record_text-Leads :
      (who : Caller) (fresh filename space raw : String) (n : ℕ) (hash : String) (t : ℕ)
      → Leads
          (Ready st local fronts raw)
          (Always (Backed st))
          (record_text local redis who fresh filename space raw n hash t)
  unfolding prefix_storage_path
  record_text-Leads who fresh filename space raw n hash t =
      row-Leads st local fronts raw _ _ (noted who fresh filename n) refl
        (undo_text-Keeps st local fronts raw) (noted-Keeps who fresh filename n)

  hash_and_record-Leads :
      (who : Caller) (fresh filename space raw : String) (n : ℕ)
      → Leads
          (Ready st local fronts raw)
          (Always (Backed st))
          (hash_and_record local redis who fresh filename space raw n)
  hash_and_record-Leads who fresh filename space raw n =
      Leads-next (otherwise "" (on_disk (local.hash_file raw))) _ (hash-Keeps st local fronts raw)
        (λ t p. p.0.0)
        λ hash.
          Leads-next now (record_text local redis who fresh filename space raw n hash) Keeps-now
            (λ t p. p.0.0) (record_text-Leads who fresh filename space raw n hash)

  write_text-Leads :
      (who : Caller) (fresh filename content space : String)
      → Leads
          (Free st local fronts (local.storage_path_for fresh filename))
          (Always (Backed st))
          (write_text local redis who fresh filename content space)
  write_text-Leads who fresh filename content space =
      let raw : String = local.storage_path_for fresh filename in
      object-Leads st local fronts raw content
        (hash_and_record local redis who fresh filename space raw)
        (hash_and_record-Leads who fresh filename space raw)

  -- Unless the name is taken
  unless_taken-Leads :
      (raw space filename owner : String) (m : Action (State S) Reply)
      → Leads (Free st local fronts raw) (Always (Backed st)) m
      → Leads
          (Free st local fronts raw)
          (Always (Backed st))
          (handling (λ _. m) (find_file_by_name space filename owner) λ _. pure conflict)
  unless_taken-Leads raw space filename owner m h =
      Leads-handling {M = Always (Free st local fronts raw)} (λ _. m)
        (find_file_by_name space filename owner) (λ _. pure conflict)
        (Leads-Keeps (find_file_by_name space filename owner) (find-Keeps raw space filename owner))
        (λ e. h) (λ a. Leads-pure conflict (λ t p. p.0))

  refused-Leads :
      (raw : String) (r : Reply) → Leads (Free st local fronts raw) (Always (Backed st)) (pure r)
  refused-Leads raw r = Leads-pure r (λ t p. p.0)

  pub create_text_file-Leads :
      (validate : String → Bool) (who : Caller) (fresh filename content space_id : String)
      → Leads
          (Free st local fronts (local.storage_path_for fresh filename))
          (Always (Backed st))
          (create_text_file local redis validate who fresh filename content space_id)
  unfolding create_text_file
  create_text_file-Leads validate who fresh filename content space_id =
      let raw : String = local.storage_path_for fresh filename in
      Leads-either (not (validate filename)) _ _ (refused-Leads raw bad_request) (
        Leads-either (ltb 10485760 (len content)) _ _ (refused-Leads raw bad_request) (
          Leads-either (not (check_pat_quota who (len content))) _ _ (refused-Leads raw too_large) (
            unless_taken-Leads raw _ filename who.username _ (
              write_text-Leads who fresh filename content
                (normalize_write_space space_id who.username)))))

  -- The object of a new directory goes again through the router.
  undo_dir-Keeps :
      (raw : String)
      → Keeps
          (Free st local fronts raw)
          (ignore (on_disk (st.delete_file (stored raw))) >> pure internal_error)
  undo_dir-Keeps raw =
      Keeps-bind (ignore (on_disk (st.delete_file (stored raw)))) (λ _. pure internal_error)
        (Keeps-ignore (on_disk (st.delete_file (stored raw))) (
          aside-Keeps st local fronts raw (st.delete_file (stored raw)) λ c q n.
            fronts.lawful.delete_spares (stored raw) c q (λ e. n (e ∙ fronts.is_named raw))))
        (λ _. Keeps-pure internal_error)

  place_row-Leads :
      (who : Caller) (fresh dir_path space raw : String) (t : ℕ)
      → Leads
          (Ready st local fronts raw)
          (Always (Backed st))
          (place_row st local who fresh dir_path space raw t)
  unfolding prefix_storage_path
  place_row-Leads who fresh dir_path space raw t =
      row-Leads st local fronts raw _ _ (pure (created dir_path)) refl (undo_dir-Keeps raw)
        (Keeps-pure (created dir_path))

  make_dir-Leads :
      (who : Caller) (fresh dir_path space : String)
      → Leads
          (Free st local fronts (local.storage_path_for fresh (dir_path & ".keep")))
          (Always (Backed st))
          (make_dir st local who fresh dir_path space)
  make_dir-Leads who fresh dir_path space =
      let raw : String = local.storage_path_for fresh (dir_path & ".keep") in
      object-Leads st local fronts raw "" _ λ _.
        Leads-next now (place_row st local who fresh dir_path space raw) Keeps-now (λ t p. p.0.0)
          (place_row-Leads who fresh dir_path space raw)

  pub mkdir-Leads :
      (validate : String → Bool) (who : Caller) (fresh dir_path space_id : String)
      → Leads
          (Free st local fronts (local.storage_path_for fresh (dir_path & ".keep")))
          (Always (Backed st))
          (mkdir st local validate who fresh dir_path space_id)
  unfolding mkdir
  mkdir-Leads validate who fresh dir_path space_id =
      let raw : String = local.storage_path_for fresh (dir_path & ".keep") in
      Leads-either (str_eq dir_path "") _ _ (refused-Leads raw bad_request) (
        Leads-either (not (validate (dir_path & ".keep"))) _ _ (refused-Leads raw bad_request) (
          unless_taken-Leads raw _ (dir_path & ".keep") (owner_filter who) _
            (make_dir-Leads who fresh dir_path (normalize_write_space space_id who.username))))
