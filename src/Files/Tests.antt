-- ===== src/Files/Tests.antt =====
-- A server with two disks, and one object that two owners share.
use first_golang.Prelude.{
  Elem, ◌≢◌, String, none, some, true, ◌≡◌, refl, List, [], ◌∷◌, inl, inr, ◌==◌, str_eq, subst,
  trim_prefix,
}
use first_golang.Sql.Exec.{Conn, never, calm}
use first_golang.Sql.Rows.{first_where, update_where}
use first_golang.Storage.Local.{
  Disk, at_path, with_file, without, local_storage, local_write_file, local_hash_file,
}
use first_golang.Storage.Router.{router_storage}
use first_golang.Storage.Router.Fronts.{stored}
use first_golang.Storage.Router.Tests.{near, front, front-near}
use first_golang.Files.Defs.{FileRecord, State, Caller}
use first_golang.Files.Rows.{has_id}
use first_golang.Files.Ops.{with_files, get_file, update_file_meta}
use first_golang.Files.Trash.{delete_file, restore_file}
use first_golang.Files.Handlers.Delete.{delete_file_by_id}
use first_golang.Files.Handlers.Trash.{permanent_delete}
use first_golang.Files.Handlers.Text.{update_file_content}
use first_golang.Files.Backed.{Backed, HasObject}
use first_golang.Files.Backed.Reach.{
  Server, start, after, deletes, deletes_for_good, files_stay-Backed,
}
use first_golang.Files.Sharing.{edit_reaches_sharers}
use first_golang.Files.Restore.{touched, restore_file-delete_file}
use first_golang.Files.Like.{like_prefix, begins, like_prefix-begins}

abbrev file_of : String → String → FileRecord
file_of id owner = record {
  id = id;
  filename = "docs/notes.txt";
  size = 5;
  hash = "sha256 of hello";
  storage_path = "local:/data/ab/cd/abcd.txt";
  storage_type = "local";
  chunk_size = 0;
  total_chunks = 1;
  status = "completed";
  owner = owner;
  space_id = "default";
  created_at = 10;
  updated_at = 10;
  deleted_at = none;
}

abbrev shared_files : List FileRecord
shared_files = file_of "abcd" "alice" ∷ file_of "bcde" "bob" ∷ []

abbrev world : State (Disk × Disk)
world = record {
  files = shared_files;
  tokens = [];
  marked = [];
  disks = (("/data/ab/cd/abcd.txt", "hello") ∷ [], []);
}

abbrev alice : Caller
alice = record { username = "alice"; role = "user"; token_id = ""; quota_bytes = 0; quota_used = 0 }

abbrev server : Server (Disk × Disk)
server = record {
  storage = front;
  local = near;
  redis = true;
  validate = λ _. true;
  same = λ a b. a == b;
}

abbrev session : Conn (State (Disk × Disk))
session = record { tables = world; tick = 0; fails = never; clock = λ n. 100; nonce = λ n. "" }

abbrev in_trash : Conn (State (Disk × Disk))
in_trash = (delete_file_by_id true alice "abcd" session).1

abbrev gone : Conn (State (Disk × Disk))
gone = (permanent_delete front alice "abcd" in_trash).1

object_there : HasObject front world.disks (file_of "abcd" "alice")
unfolding router_storage local_storage at_path
object_there = (refl, λ e. absurd (cc))

world-Backed : Backed front world
world-Backed f (inl e) = subst (HasObject front world.disks) e object_there
world-Backed f (inr (inl e)) = subst (HasObject front world.disks) e object_there
world-Backed f (inr (inr m)) = absurd m

files_stay-Backed_example :
    ((f : FileRecord) → Elem f gone.tables.files → front.name f.storage_path ≡ f.storage_path)
    × ((f : FileRecord)
        → Elem f gone.tables.files
        → front.content f.storage_path gone.tables.disks ≢ none)
files_stay-Backed_example =
    files_stay-Backed server front-near world gone.tables (λ f m. (world-Backed f m).0)
      (λ f m. (world-Backed f m).1)
      (after (after start (deletes alice "abcd")) (deletes_for_good alice "abcd"))

edit_reaches_sharers_example :
    let d = (update_file_content near alice "abcd" "bye" session).1 in
    (f : FileRecord) × (first_where (has_id "abcd") shared_files ≡ some f)
    × ((g : FileRecord) (raw : String)
        → g.storage_path ≡ f.storage_path
        → f.storage_path ≡ stored raw
        → front.content g.storage_path d.tables.disks ≡ some "bye")
unfolding update_file_content update_file_meta get_file local_storage local_write_file
    local_hash_file at_path with_file without trim_prefix
edit_reaches_sharers_example =
    edit_reaches_sharers front near alice "abcd" "bye" 3 "sha256 of bye" front-near session refl

restore_file-delete_file_example :
    let d = (delete_file "abcd" (calm session)).1 in
    (restore_file "abcd" "alice" d).1.tables
    ≡ with_files (update_where (λ f. str_eq f.id "abcd") (touched (d.clock d.tick))) world
restore_file-delete_file_example =
    restore_file-delete_file "abcd" "alice" session ((λ _. (refl, refl)), ((λ e. absurd (cc)), tt))

like_prefix-begins_example :
    like_prefix (λ a b. a == b) (b'a' ∷ b'%' ∷ b'/' ∷ []) (b'a' ∷ b'%' ∷ b'/' ∷ b'x' ∷ [])
    ≡ begins (λ a b. a == b) (b'a' ∷ b'%' ∷ b'/' ∷ []) (b'a' ∷ b'%' ∷ b'/' ∷ b'x' ∷ [])
like_prefix-begins_example =
    like_prefix-begins (λ a b. a == b) (b'a' ∷ b'%' ∷ b'/' ∷ []) (b'a' ∷ b'%' ∷ b'/' ∷ b'x' ∷ [])
