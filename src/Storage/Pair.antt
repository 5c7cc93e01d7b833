-- ===== src/Storage/Pair.antt =====
-- Two storages side by side, each one on its own half of the state.
use first_golang.Prelude.{ℕ, String, ◌≡◌, ◌≢◌, refl}
use first_golang.Sql.Within.{within, restrict}
use first_golang.Storage.Backend.{Storage, IsStorage, IsWritable}
use first_golang.Storage.Router.Laws.{AreApart}

module _ {A B : Type 0} (id : ℕ) where
  abbrev pub left : Storage A → Storage (A × B)
  left st = record {
    identity = id;
    read_file = λ p offset. within (λ s. s.0) (λ t s. (t, s.1)) (st.read_file p offset);
    write_file = λ p text. within (λ s. s.0) (λ t s. (t, s.1)) (st.write_file p text);
    file_size = λ p. within (λ s. s.0) (λ t s. (t, s.1)) (st.file_size p);
    hash_file = λ p. within (λ s. s.0) (λ t s. (t, s.1)) (st.hash_file p);
    delete_file = λ p. within (λ s. s.0) (λ t s. (t, s.1)) (st.delete_file p);
    copy_file = λ src dst. within (λ s. s.0) (λ t s. (t, s.1)) (st.copy_file src dst);
    storage_path_for = st.storage_path_for;
    name = st.name;
    content = λ p s. st.content p s.0;
    digest = st.digest;
  }

  abbrev pub right : Storage B → Storage (A × B)
  right st = record {
    identity = id;
    read_file = λ p offset. within (λ s. s.1) (λ t s. (s.0, t)) (st.read_file p offset);
    write_file = λ p text. within (λ s. s.1) (λ t s. (s.0, t)) (st.write_file p text);
    file_size = λ p. within (λ s. s.1) (λ t s. (s.0, t)) (st.file_size p);
    hash_file = λ p. within (λ s. s.1) (λ t s. (s.0, t)) (st.hash_file p);
    delete_file = λ p. within (λ s. s.1) (λ t s. (s.0, t)) (st.delete_file p);
    copy_file = λ src dst. within (λ s. s.1) (λ t s. (s.0, t)) (st.copy_file src dst);
    storage_path_for = st.storage_path_for;
    name = st.name;
    content = λ p s. st.content p s.1;
    digest = st.digest;
  }

  left-IsStorage : (st : Storage A) → IsStorage st → IsStorage (left st)
  left-IsStorage st h = record {
    by_name = λ p q s e. h.by_name p q s.0 e;
    read_reads = λ p offset c q. h.read_reads p offset _ q;
    size_reads = λ p c q. h.size_reads p _ q;
    hash_reads = λ p c q. h.hash_reads p _ q;
    delete_spares = λ p c q n. h.delete_spares p _ q n;
    copy_spares = λ src dst c q n. h.copy_spares src dst _ q n;
    read_gives = λ p x offset c r. h.read_gives p x offset _ r;
    size_gives = λ p n c r. h.size_gives p n _ r;
    hash_gives = λ p x c r. h.hash_gives p x _ r;
    delete_removes = λ p c r. h.delete_removes p _ r;
    read_works = λ p y offset c r. h.read_works p y offset (restrict (λ s. s.0) c) r;
    size_works = λ p y c r. h.size_works p y (restrict (λ s. s.0) c) r;
    hash_works = λ p y c r. h.hash_works p y (restrict (λ s. s.0) c) r;
    delete_works = λ p c. h.delete_works p (restrict (λ s. s.0) c);
    copy_stores = λ src dst c n r. h.copy_stores src dst _ n r;
  }

  pub left-IsWritable : (st : Storage A) → IsWritable st → IsWritable (left st)
  left-IsWritable st h = record {
    write_spares = λ p text c q n. h.write_spares p text _ q n;
    write_stores = λ p text n c r. h.write_stores p text n _ r;
    write_keeps = λ p text c k. h.write_keeps p text _ k;
  }

  right-IsStorage : (st : Storage B) → IsStorage st → IsStorage (right st)
  right-IsStorage st h = record {
    by_name = λ p q s e. h.by_name p q s.1 e;
    read_reads = λ p offset c q. h.read_reads p offset _ q;
    size_reads = λ p c q. h.size_reads p _ q;
    hash_reads = λ p c q. h.hash_reads p _ q;
    delete_spares = λ p c q n. h.delete_spares p _ q n;
    copy_spares = λ src dst c q n. h.copy_spares src dst _ q n;
    read_gives = λ p x offset c r. h.read_gives p x offset _ r;
    size_gives = λ p n c r. h.size_gives p n _ r;
    hash_gives = λ p x c r. h.hash_gives p x _ r;
    delete_removes = λ p c r. h.delete_removes p _ r;
    read_works = λ p y offset c r. h.read_works p y offset (restrict (λ s. s.1) c) r;
    size_works = λ p y c r. h.size_works p y (restrict (λ s. s.1) c) r;
    hash_works = λ p y c r. h.hash_works p y (restrict (λ s. s.1) c) r;
    delete_works = λ p c. h.delete_works p (restrict (λ s. s.1) c);
    copy_stores = λ src dst c n r. h.copy_stores src dst _ n r;
  }

module _ {A B : Type 0} (a : Storage A) (b : Storage B) where
  pub side_by_side :
      IsStorage a
      → IsStorage b
      → ((x : String) → a.digest x ≡ b.digest x)
      → (i j : ℕ) → i ≢ j
      → AreApart (left {B = B} i a) (right {A = A} j b)
  side_by_side h k d i j n = record {
    first = left-IsStorage i a h;
    second = right-IsStorage j b k;
    forth = record {
      read_ignores = λ p offset c q. refl;
      size_ignores = λ p c q. refl;
      hash_ignores = λ p c q. refl;
      delete_ignores = λ p c q. refl;
      copy_ignores = λ src dst c q. refl;
    };
    back = record {
      read_ignores = λ p offset c q. refl;
      size_ignores = λ p c q. refl;
      hash_ignores = λ p c q. refl;
      delete_ignores = λ p c q. refl;
      copy_ignores = λ src dst c q. refl;
    };
    identities = n;
    digests = d;
  }
