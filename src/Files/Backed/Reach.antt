-- ===== src/Files/Backed/Reach.antt =====
-- The requests that change files, one after another, each on a connection of its own.
use first_golang.Prelude.{ℕ, none, ◌≡◌, String, Bool, ◌≢◌, List, Elem, ◌&◌}
use first_golang.Sql.Exec.{Conn}
use first_golang.Storage.Backend.{Storage}
use first_golang.Storage.Router.Fronts.{Fronts, stored}
use first_golang.Files.Defs.{FileRecord, State, Caller}
use first_golang.Files.Handlers.Delete.{delete_file_by_id, delete_dir, batch_delete}
use first_golang.Files.Handlers.Trash.{restore, permanent_delete, empty_trash, clean_trash}
use first_golang.Files.Handlers.Text.{
  check_upload, create_text_file, update_file_content, get_file_content,
}
use first_golang.Files.Handlers.Dir.{mkdir, rename, move_dir}
use first_golang.Files.Backed.{Backed}
use first_golang.Files.Backed.Deletes.{
  delete_file_by_id-Keeps, delete_dir-Keeps, batch_delete-Keeps, restore-Keeps,
  permanent_delete-Keeps, empty_trash-Keeps, clean_trash-Keeps,
}
use first_golang.Files.Backed.Creates.{create_text_file-Leads, mkdir-Leads}
use first_golang.Files.Backed.Edits.{
  check_upload-Keeps, update_file_content-Keeps, get_file_content-Keeps, rename-Keeps,
  move_dir-Keeps,
}

-- What the server is built from: the router and its local backend, whether there is a Redis, the test
-- of file names and the collation of LIKE.
pub record Server (S : Type 0) : Type 0 where
  pub storage : Storage S
  pub local : Storage S
  pub redis : Bool
  pub validate : String → Bool
  pub same : ℕ → ℕ → Bool

-- No row is stored at the local path.
abbrev pub IsUnused : {S : Type 0} → String → State S → Type 0
IsUnused raw t = (f : FileRecord) → Elem f t.files → f.storage_path ≢ stored raw

-- One request. A new file gets a random id, so that its path is not in use.
pub data Step {S : Type 0} (v : Server S) (c : Conn (State S)) : Conn (State S) → Type 0 where
  deletes : (who : Caller) (id : String) → Step v c (delete_file_by_id v.redis who id c).1
  deletes_dir :
      (who : Caller) (space_id prefix : String)
      → Step v c (delete_dir v.redis v.same who space_id prefix c).1
  deletes_batch : (who : Caller) (ids : List String) → Step v c (batch_delete v.redis who ids c).1
  restores : (who : Caller) (space_id id : String) → Step v c (restore v.redis who space_id id c).1
  deletes_for_good : (who : Caller) (id : String) → Step v c (permanent_delete v.storage who id c).1
  empties :
      (who : Caller) (space_id : String) (all : Bool)
      → Step v c (empty_trash v.storage who space_id all c).1
  cleans : Step v c (clean_trash v.storage c).1
  shares :
      (who : Caller) (fresh filename : String) (size : ℕ) (hash space_id : String)
      → Step v c (check_upload v.redis v.validate who fresh filename size hash space_id c).1
  creates :
      (who : Caller) (fresh filename content space_id : String)
      → IsUnused (v.local.storage_path_for fresh filename) c.tables
      → Step v c
          (create_text_file v.local v.redis v.validate who fresh filename content space_id c).1
  reads : (who : Caller) (id : String) → Step v c (get_file_content v.storage who id c).1
  edits :
      (who : Caller) (id content : String)
      → Step v c (update_file_content v.local who id content c).1
  makes_dir :
      (who : Caller) (fresh dir_path space_id : String)
      → IsUnused (v.local.storage_path_for fresh (dir_path & ".keep")) c.tables
      → Step v c (mkdir v.storage v.local v.validate who fresh dir_path space_id c).1
  renames :
      (who : Caller) (id filename : String)
      → Step v c (rename v.redis v.validate who id filename c).1
  moves :
      (who : Caller) (old new space_id : String)
      → Step v c (move_dir v.redis v.same who old new space_id c).1

-- The states after any number of requests. Between them the clock moves and the driver may fail in
-- another way.
pub data Reached {S : Type 0} (v : Server S) (s : State S) : State S → Type 0 where
  start : Reached v s s
  after : {c d : Conn (State S)} → Reached v s c.tables → Step v c d → Reached v s d.tables

module _ {S : Type 0} (v : Server S) (fronts : Fronts v.storage v.local) where
  Step-Backed :
      {c d : Conn (State S)} → Step v c d → Backed v.storage c.tables → Backed v.storage d.tables
  Step-Backed {c} (deletes who id) h = (delete_file_by_id-Keeps v.storage v.redis who id).at c h
  Step-Backed {c} (deletes_dir who space_id prefix) h =
      (delete_dir-Keeps v.storage v.redis v.same who space_id prefix).at c h
  Step-Backed {c} (deletes_batch who ids) h = (batch_delete-Keeps v.storage v.redis who ids).at c h
  Step-Backed {c} (restores who space_id id) h =
      (restore-Keeps v.storage v.redis who space_id id).at c h
  Step-Backed {c} (deletes_for_good who id) h =
      (permanent_delete-Keeps v.storage fronts.lawful who id).at c h
  Step-Backed {c} (empties who space_id all) h =
      (empty_trash-Keeps v.storage fronts.lawful who space_id all).at c h
  Step-Backed {c} cleans h = (clean_trash-Keeps v.storage fronts.lawful).at c h
  Step-Backed {c} (shares who fresh filename size hash space_id) h =
      (check_upload-Keeps v.storage v.redis v.validate who fresh filename size hash space_id).at c h
  Step-Backed {c} (creates who fresh filename content space_id n) h =
      (create_text_file-Leads v.storage v.local fronts v.redis v.validate who fresh filename content
          space_id).at
        c (h, n)
  Step-Backed {c} (reads who id) h = (get_file_content-Keeps v.storage v.local fronts who id).at c h
  Step-Backed {c} (edits who id content) h =
      (update_file_content-Keeps v.storage v.local fronts who id content).at c h
  Step-Backed {c} (makes_dir who fresh dir_path space_id n) h =
      (mkdir-Leads v.storage v.local fronts v.redis v.validate who fresh dir_path space_id).at c
        (h, n)
  Step-Backed {c} (renames who id filename) h =
      (rename-Keeps v.storage v.redis v.validate who id filename).at c h
  Step-Backed {c} (moves who old new space_id) h =
      (move_dir-Keeps v.storage v.redis v.same who old new space_id).at c h

Reached-Backed :
    {S : Type 0} (v : Server S)
    → Fronts v.storage v.local
    → (s t : State S) → Backed v.storage s
    → Reached v s t
    → Backed v.storage t
Reached-Backed v fronts s _ h start = h
Reached-Backed v fronts s _ h (after r m) = Step-Backed v fronts m (Reached-Backed v fronts s _ h r)

-- For deletions into the trash, restorings, final deletions, the emptying and the cleaning of the
-- trash, instant uploads, text files that are created, read and edited, and directories that are
-- made and moved, and renamings: behind a lawful storage that shows what the local backend writes,
-- where new files get paths that no row uses, and from a state in which the path of every row is
-- written with the prefix of its backend and has its object, any sequence of whole such requests,
-- whichever statements and calls of the storage fail, leads to a state in which the path of every
-- row, in the trash or not, is written with its prefix and has its object.
pub files_stay-Backed :
    {S : Type 0} (v : Server S)
    → Fronts v.storage v.local
    → (s t : State S)
    → ((f : FileRecord) → Elem f s.files → v.storage.name f.storage_path ≡ f.storage_path)
    → ((f : FileRecord) → Elem f s.files → v.storage.content f.storage_path s.disks ≢ none)
    → Reached v s t
    → ((f : FileRecord) → Elem f t.files → v.storage.name f.storage_path ≡ f.storage_path)
      × ((f : FileRecord) → Elem f t.files → v.storage.content f.storage_path t.disks ≢ none)
files_stay-Backed v fronts s t prefixed there r =
    let h = Reached-Backed v fronts s t (λ f m. (prefixed f m, there f m)) r in
    (λ f m. (h f m).0, λ f m. (h f m).1)
