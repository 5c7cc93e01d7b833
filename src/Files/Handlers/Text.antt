-- ===== src/Files/Handlers/Text.antt =====
-- Instant uploads (internal/handler/upload_check.go) and text files edited online
-- (internal/handler/file_text.go). `validate` is the test of file names, `fresh` the id that the
-- request gives to a new file, `storage` the router and `local` the backend for local files.
use first_golang.Prelude.{
  ℕ, String, Bool, true, false, none, not, str_eq, ltb, ◌==◌, if◌then◌else◌, trim_prefix,
}
use Prim.Native.String.{len}
use first_golang.Sql.Exec.{
  Action, Error, no_rows, ◌>>=◌, ◌>>◌, pure, handling, ignore, otherwise, now,
}
use first_golang.Storage.Backend.{Storage}
use first_golang.Storage.Router.{prefix_storage_path, local_prefix}
use first_golang.Files.Defs.{FileRecord, State, Caller, owner_filter, normalize_write_space}
use first_golang.Files.Ops.{
  get_file, find_file_by_name, get_file_by_hash, create_file, update_file_meta, mark_file_exists,
}
use first_golang.Files.Handlers.{
  Reply, bad_request, unauthorized, forbidden, not_found, conflict, too_large, internal_error,
  upload_needed, instant_upload, created, contents, updated, in_redis, is_forbidden, on_disk,
  check_pat_quota, account_pat_quota,
}

-- A file of which the rest is as the code leaves it.
abbrev pub new_file : String → String → String → String → ℕ → FileRecord
new_file id filename owner space_id t = record {
  id = id;
  filename = filename;
  size = 0;
  hash = "";
  storage_path = "";
  storage_type = "local";
  chunk_size = 0;
  total_chunks = 0;
  status = "completed";
  owner = owner;
  space_id = space_id;
  created_at = t;
  updated_at = t;
  deleted_at = none;
}

abbrev pub is_no_rows : Error → Bool
is_no_rows no_rows = true
is_no_rows _ = false

-- A new row that shares the object of `source`
abbrev pub shared_row : Caller → String → String → String → FileRecord → ℕ → FileRecord
shared_row who fresh filename space source t =
    record (new_file fresh filename who.username space t) {
      size = source.size;
      hash = source.hash;
      storage_path = source.storage_path;
      storage_type = source.storage_type;
      chunk_size = source.chunk_size;
      total_chunks = source.total_chunks;
    }

module _ {S : Type 0} (redis : Bool) where
  abbrev pub share_at : Caller → String → FileRecord → Action (State S) Reply
  share_at who filename row =
      handling (λ _. pure internal_error) (create_file row)
        λ _. do
          account_pat_quota who row.size
          in_redis redis (mark_file_exists filename)
          pure (instant_upload row)

  abbrev pub share_object : Caller → String → String → String → FileRecord → Action (State S) Reply
  share_object who fresh filename space source =
      now >>= λ t. share_at who filename (shared_row who fresh filename space source t)

  -- Where the name is taken, by another file than the source, nothing is shared.
  abbrev pub share_free : Caller → String → String → String → FileRecord → Action (State S) Reply
  share_free who fresh filename space source =
      handling (λ _. share_object who fresh filename space source)
        (find_file_by_name space filename who.username)
        λ existing.
          if not (str_eq existing.id source.id)
          then pure conflict
          else share_object who fresh filename space source

  -- `CheckUpload`
  unfoldable pub check_upload :
      (String → Bool) → Caller → String → String → ℕ → String → String → Action (State S) Reply
  check_upload validate who fresh filename size hash space_id =
      let space : String = normalize_write_space space_id who.username in
      if not (validate filename)
      then pure bad_request
      else if size == 0
      then pure bad_request
      else if not (len hash == 64)
      then pure bad_request
      else if str_eq who.username ""
      then pure unauthorized
      else if not (check_pat_quota who size)
      then pure too_large
      else handling (λ e. if is_no_rows e then pure upload_needed else pure internal_error)
          (get_file_by_hash hash "" size) (share_free who fresh filename space)

module _ {S : Type 0} (local : Storage S) (redis : Bool) where
  -- The row is there only where the object has been written; without the row the object goes again.
  abbrev pub record_object : FileRecord → String → Action (State S) Reply → Action (State S) Reply
  record_object row raw answer =
      handling (λ _. ignore (on_disk (local.delete_file raw)) >> pure internal_error)
        (create_file row) λ _. answer

  abbrev pub record_text :
      Caller → String → String → String → String → ℕ → String → ℕ → Action (State S) Reply
  record_text who fresh filename space raw n hash t =
      record_object
        (record (new_file fresh filename who.username space t) {
          size = n;
          hash = hash;
          storage_path = prefix_storage_path "local" raw;
        })
        raw
        (do
          account_pat_quota who n
          in_redis redis (mark_file_exists filename)
          pure (created fresh))

  abbrev pub hash_and_record :
      Caller → String → String → String → String → ℕ → Action (State S) Reply
  hash_and_record who fresh filename space raw n = do
    hash ← otherwise "" (on_disk (local.hash_file raw))
    t ← now
    record_text who fresh filename space raw n hash t

  abbrev pub write_text : Caller → String → String → String → String → Action (State S) Reply
  write_text who fresh filename content space =
      let raw : String = local.storage_path_for fresh filename in
      handling (λ _. pure internal_error) (on_disk (local.write_file raw content))
        (hash_and_record who fresh filename space raw)

  -- `CreateTextFile`
  unfoldable pub create_text_file :
      (String → Bool) → Caller → String → String → String → String → Action (State S) Reply
  create_text_file validate who fresh filename content space_id =
      let space : String = normalize_write_space space_id who.username in
      if not (validate filename)
      then pure bad_request
      else if ltb 10485760 (len content)
      then pure bad_request
      else if not (check_pat_quota who (len content))
      then pure too_large
      else handling (λ _. write_text who fresh filename content space)
          (find_file_by_name space filename who.username) λ _. pure conflict

module _ {S : Type 0} (local : Storage S) where
  abbrev pub edit_found : Caller → String → String → FileRecord → Action (State S) Reply
  edit_found who id content f =
      let raw : String = trim_prefix f.storage_path local_prefix in
      if is_forbidden who f
      then pure forbidden
      else if ltb 10485760 (len content)
      then pure bad_request
      else handling (λ _. pure internal_error) (on_disk (local.write_file raw content))
          λ n. do
            hash ← otherwise "" (on_disk (local.hash_file raw))
            handling (λ _. pure internal_error) (update_file_meta id n hash (owner_filter who))
                λ _. pure (updated n hash)

  -- `UpdateFileContent`
  unfoldable pub update_file_content : Caller → String → String → Action (State S) Reply
  update_file_content who id content =
      if str_eq id ""
      then pure bad_request
      else handling (λ _. pure not_found) (get_file id) (edit_found who id content)

module _ {S : Type 0} (storage : Storage S) where
  -- `GetFileContent`
  unfoldable pub get_file_content : Caller → String → Action (State S) Reply
  get_file_content who id =
      if str_eq id ""
      then pure bad_request
      else handling (λ _. pure not_found) (get_file id)
          λ f.
            if is_forbidden who f
            then pure forbidden
            else handling (λ _. pure internal_error) (on_disk (storage.read_file f.storage_path 0))
                λ x. pure (contents x)
