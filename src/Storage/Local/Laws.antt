-- ===== src/Storage/Local/Laws.antt =====
-- What the callers rely on, for LocalStorage (internal/storage/local.go).
use Prim.Native.Nat.{zero}
use Prim.Native.String.{slice}
use first_golang.Prelude.{
  ℕ, String, Option, none, some, ◌≡◌, ◌≢◌, refl, arith, str_eq_iff, Bool, true, false,
}
use first_golang.Sql.Exec.{Conn, ok, ◌>>=◌, pure, scan}
use first_golang.Sql.Keeps.{Keeps, keeps_rules, Keeps-update, Keeps-statement}
use first_golang.Sql.Ensures.{Ensures, Ensures-then}
use first_golang.Sql.Leads.{
  Leads, Returns, Leads-query, Leads-then, Leads-wrapped, Leads-on_error, Leads-bind, Leads-pure,
  Leads-returns,
}
use first_golang.Storage.Backend.{IsStorage, IsWritable}
use first_golang.Storage.Local.{
  Disk, at_path, with_file, without, at_path-with_file, at_path-without, pour, poured,
  local_storage, read_path, local_read_file, local_write_file, local_file_size, local_hash_file,
  local_delete_file, local_copy_file,
}
use first_golang.Storage.Local.Gives.{
  read-gives, size-gives, hash-gives, delete-removes, read-works, size-works, hash-works,
  delete-works,
}

module _ (q : String) (v : Option String) where
  abbrev Shows : Disk → Type 0
  Shows d = at_path q d ≡ v

  module _ (p : String) (n : q ≢ p) where
    with_file-Shows : (x : String) (d : Disk) → Shows d → Shows (with_file p x d)
    with_file-Shows x d h = ground (arith, at_path-with_file p q x d, str_eq_iff p q)

    without-Shows : (d : Disk) → Shows d → Shows (without p d)
    without-Shows d h = ground (arith, at_path-without p q d, str_eq_iff p q)

    poured-Shows :
        (x : String) (c : Conn Disk) (b : Bool) → Shows c.tables → Shows (poured p x c b).1.tables
    poured-Shows x c true h = with_file-Shows (slice x zero (c.clock c.tick)) c.tables h
    poured-Shows x c false h = with_file-Shows x c.tables h

    pour-Keeps : (x : String) → Keeps Shows (pour p x)
    pour-Keeps x = record { at = λ c h. poured-Shows x c (c.fails c.tick) h }

    write-Keeps :
        (base : String) (sha : String → String) (x : String)
        → Keeps Shows (local_write_file base sha p x)
    unfolding local_write_file
    write-Keeps base sha x =
        search (keeps_rules, Keeps-update, with_file-Shows, pour-Keeps, Keeps-statement) depth 12

    delete-Keeps :
        (base : String) (sha : String → String) → Keeps Shows (local_delete_file base sha p)
    unfolding local_delete_file
    delete-Keeps base sha = search (keeps_rules, Keeps-update, without-Shows) depth 8

    copy-Keeps :
        (base : String) (sha : String → String) (src : String)
        → Keeps Shows (local_copy_file base sha src p)
    unfolding local_copy_file
    copy-Keeps base sha src =
        search
          (keeps_rules, Keeps-update, with_file-Shows, without-Shows, pour-Keeps, Keeps-statement)
          depth 14

  read-Keeps :
      (base : String) (sha : String → String) (p : String) (offset : ℕ)
      → Keeps Shows (local_read_file base sha p offset)
  unfolding local_read_file
  read-Keeps base sha p offset = search (keeps_rules) depth 8

  size-Keeps :
      (base : String) (sha : String → String) (p : String)
      → Keeps Shows (local_file_size base sha p)
  unfolding local_file_size
  size-Keeps base sha p = search (keeps_rules) depth 8

  hash-Keeps :
      (base : String) (sha : String → String) (p : String)
      → Keeps Shows (local_hash_file base sha p)
  unfolding local_hash_file
  hash-Keeps base sha p = search (keeps_rules) depth 8

module _ (base : String) (sha : String → String) where
  poured-stores :
      (p x : String) (n : ℕ) (c : Conn Disk) (b : Bool)
      → (poured p x c b).0 ≡ ok n
      → at_path p (poured p x c b).1.tables ≡ some x
  poured-stores p x n c true h = absurd (cc)
  poured-stores p x n c false h = ground (arith, at_path-with_file p p x c.tables, str_eq_iff p p)

  pour-Ensures : (p x : String) → Ensures (λ d. at_path p d ≡ some x) (pour p x)
  pour-Ensures p x = record { at = λ c n h. poured-stores p x n c (c.fails c.tick) h }

  write-Ensures :
      (p x : String) → Ensures (λ d. at_path p d ≡ some x) (local_write_file base sha p x)
  unfolding local_write_file
  write-Ensures p x = search (Ensures-then, pour-Ensures) depth 6

  write-stores :
      (p x : String) (n : ℕ) (c : Conn Disk)
      → (local_write_file base sha p x c).0 ≡ ok n
      → at_path p (local_write_file base sha p x c).1.tables ≡ some x
  write-stores p x n c h = (write-Ensures p x).at c n h

  poured-Returns :
      (src dst x : String) (v : Option String) (c : Conn Disk) (b : Bool)
      → at_path src c.tables ≡ v
      → scan (at_path src c.tables) ≡ ok x
      → Returns (λ _ d. at_path dst d ≡ v) (poured dst x c b).0 (poured dst x c b).1.tables
  poured-Returns src dst x v c true h e = tt
  poured-Returns src dst x v c false h e =
      ground (arith, at_path-with_file dst dst x c.tables, str_eq_iff dst dst)

  pour-Leads :
      (src dst x : String) (v : Option String)
      → Leads
          (λ d. (at_path src d ≡ v) × (scan (at_path src d) ≡ ok x))
          (Returns (λ _ d. at_path dst d ≡ v))
          (pour dst x)
  pour-Leads src dst x v = record {
    at = λ c p. poured-Returns src dst x v c (c.fails c.tick) p.0 p.1;
  }

  stream-Leads :
      (src dst : String) (v : Option String)
      → Leads
          (Shows src v)
          (Returns (λ _ d. at_path dst d ≡ v))
          (do x ← read_path base sha src; _ ← pour dst x; pure tt)
  stream-Leads src dst v =
      Leads-query (λ d. scan (at_path src d)) (λ x. do _ ← pour dst x; pure tt)
        λ x.
          Leads-bind (pour dst x) (λ _. pure tt) (pour-Leads src dst x v)
            (λ _. Leads-pure tt (λ t h. h)) (λ e t _. tt)

  copy-Leads :
      (src dst : String) (v : Option String)
      → src ≢ dst
      → Leads (Shows src v) (Returns (λ _ d. at_path dst d ≡ v)) (local_copy_file base sha src dst)
  unfolding local_copy_file
  copy-Leads src dst v n =
      search
        (
          Leads-then, keeps_rules, Keeps-update, with_file-Shows, Keeps-statement, Leads-wrapped,
          Leads-on_error, stream-Leads,
        )
        depth 14

  copy-stores :
      (src dst : String) (c : Conn Disk)
      → src ≢ dst
      → (local_copy_file base sha src dst c).0 ≡ ok tt
      → at_path dst (local_copy_file base sha src dst c).1.tables ≡ at_path src c.tables
  copy-stores src dst c n h =
      Leads-returns (local_copy_file base sha src dst) (copy-Leads src dst (at_path src c.tables) n)
        c tt refl h

  pub local_storage-IsStorage : IsStorage (local_storage base sha)
  unfolding local_storage
  local_storage-IsStorage = record {
    by_name = λ p q s e. rw e refl;
    read_reads = λ p offset c q. (read-Keeps q _ base sha p offset).at c refl;
    size_reads = λ p c q. (size-Keeps q _ base sha p).at c refl;
    hash_reads = λ p c q. (hash-Keeps q _ base sha p).at c refl;
    delete_spares = λ p c q n. (delete-Keeps q _ p n base sha).at c refl;
    copy_spares = λ src dst c q n. (copy-Keeps q _ dst n base sha src).at c refl;
    read_gives = read-gives base sha;
    size_gives = size-gives base sha;
    hash_gives = hash-gives base sha;
    delete_removes = delete-removes base sha;
    read_works = λ p y offset c e. read-works base sha p y offset c e;
    size_works = λ p y c e. size-works base sha p y c e;
    hash_works = λ p y c e. hash-works base sha p y c e;
    delete_works = delete-works base sha;
    copy_stores = copy-stores;
  }

  abbrev Present : String → Disk → Type 0
  Present p d = at_path p d ≢ none

  with_file-Present : (p x : String) (d : Disk) → Present p d → Present p (with_file p x d)
  with_file-Present p x d h e = absurd (ground (arith, at_path-with_file p p x d, str_eq_iff p p))

  poured-Present :
      (p x : String) (c : Conn Disk) (b : Bool)
      → Present p c.tables
      → Present p (poured p x c b).1.tables
  poured-Present p x c true h = with_file-Present p (slice x zero (c.clock c.tick)) c.tables h
  poured-Present p x c false h = with_file-Present p x c.tables h

  pour-Present : (p x : String) → Keeps (Present p) (pour p x)
  pour-Present p x = record { at = λ c h. poured-Present p x c (c.fails c.tick) h }

  write-Present : (p x : String) → Keeps (Present p) (local_write_file base sha p x)
  unfolding local_write_file
  write-Present p x =
      search (keeps_rules, Keeps-update, with_file-Present, pour-Present, Keeps-statement) depth 12

  pub local_storage-IsWritable : IsWritable (local_storage base sha)
  unfolding local_storage
  local_storage-IsWritable = record {
    write_spares = λ p x c q n. (write-Keeps q _ p n base sha x).at c refl;
    write_stores = write-stores;
    write_keeps = λ p x c h. (write-Present p x).at c h;
  }
