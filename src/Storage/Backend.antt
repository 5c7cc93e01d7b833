-- ===== src/Storage/Backend.antt =====
-- The interface Storage of internal/storage/storage.go, for the operations on finished files, and
-- what its callers rely on. `S` is the state of the disk or of the object store. The names of two
-- paths agree where both stand for one stored object; `content` is what a reader finds there, and
-- `digest` the hash of a content.
use first_golang.Prelude.{ℕ, String, Option, none, some, ◌≡◌, ◌≢◌}
use Prim.Native.String.{slice, len}
use first_golang.Sql.Exec.{Conn, Action, ok, ⊤, calm}

-- The bytes of a content from an offset on.
abbrev pub behind : ℕ → String → String
behind offset s = slice s offset (len s)

pub record Storage (S : Type 0) : Type 0 where
  -- Whose value it is: Go's `==` on interface values.
  pub identity : ℕ
  pub read_file : String → ℕ → Action S String  -- from an offset to the end
  pub write_file : String → String → Action S ℕ
  pub file_size : String → Action S ℕ
  pub hash_file : String → Action S String
  pub delete_file : String → Action S ⊤
  pub copy_file : String → String → Action S ⊤
  pub storage_path_for : String → String → String
  pub name : String → String
  pub content : String → S → Option String
  pub digest : String → String

-- An operation leaves the objects with another name as they were, whether it returns or fails.
abbrev pub Spares : {S A : Type 0} → Storage S → String → Action S A → Type 0
Spares {S} st p m =
    (c : Conn S) (q : String)
    → st.name q ≢ st.name p
    → st.content q (m c).1.tables ≡ st.content q c.tables

-- An operation changes no object.
abbrev pub Reads : {S A : Type 0} → Storage S → Action S A → Type 0
Reads {S} st m = (c : Conn S) (q : String) → st.content q (m c).1.tables ≡ st.content q c.tables

pub record IsStorage {S : Type 0} (st : Storage S) : Type 0 where
  pub by_name : (p q : String) (s : S) → st.name p ≡ st.name q → st.content p s ≡ st.content q s
  pub read_reads : (p : String) (offset : ℕ) → Reads st (st.read_file p offset)
  pub size_reads : (p : String) → Reads st (st.file_size p)
  pub hash_reads : (p : String) → Reads st (st.hash_file p)
  pub delete_spares : (p : String) → Spares st p (st.delete_file p)
  pub copy_spares : (src dst : String) → Spares st dst (st.copy_file src dst)
  pub read_gives :
      (p x : String) (offset : ℕ) (c : Conn S)
      → (st.read_file p offset c).0 ≡ ok x
      → (y : String) × (st.content p c.tables ≡ some y) × (x ≡ behind offset y)
  pub size_gives :
      (p : String) (n : ℕ) (c : Conn S)
      → (st.file_size p c).0 ≡ ok n
      → (y : String) × (st.content p c.tables ≡ some y) × (n ≡ len y)
  pub hash_gives :
      (p x : String) (c : Conn S)
      → (st.hash_file p c).0 ≡ ok x
      → (y : String) × (st.content p c.tables ≡ some y) × (x ≡ st.digest y)
  pub delete_removes :
      (p : String) (c : Conn S)
      → (st.delete_file p c).0 ≡ ok tt
      → st.content p (st.delete_file p c).1.tables ≡ none
  -- Where nothing fails, the operations return.
  pub read_works :
      (p y : String) (offset : ℕ) (c : Conn S)
      → st.content p c.tables ≡ some y
      → (st.read_file p offset (calm c)).0 ≡ ok (behind offset y)
  pub size_works :
      (p y : String) (c : Conn S)
      → st.content p c.tables ≡ some y
      → (st.file_size p (calm c)).0 ≡ ok (len y)
  pub hash_works :
      (p y : String) (c : Conn S)
      → st.content p c.tables ≡ some y
      → (st.hash_file p (calm c)).0 ≡ ok (st.digest y)
  pub delete_works : (p : String) (c : Conn S) → (st.delete_file p (calm c)).0 ≡ ok tt
  pub copy_stores :
      (src dst : String) (c : Conn S)
      → st.name src ≢ st.name dst
      → (st.copy_file src dst c).0 ≡ ok tt
      → st.content dst (st.copy_file src dst c).1.tables ≡ st.content src c.tables

pub record IsWritable {S : Type 0} (st : Storage S) : Type 0 where
  pub write_spares : (p text : String) → Spares st p (st.write_file p text)
  pub write_stores :
      (p text : String) (n : ℕ) (c : Conn S)
      → (st.write_file p text c).0 ≡ ok n
      → st.content p (st.write_file p text c).1.tables ≡ some text
  -- A write that fails may leave a part of the text, but no file disappears.
  pub write_keeps :
      (p text : String) (c : Conn S)
      → st.content p c.tables ≢ none
      → st.content p (st.write_file p text c).1.tables ≢ none
