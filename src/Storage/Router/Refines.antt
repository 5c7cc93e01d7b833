-- ===== src/Storage/Router/Refines.antt =====
-- The router over two backends is again a backend, for paths with a prefix.
use first_golang.Prelude.{String, some, none, ◌≡◌, sym, ap, ◌∙◌, inl, inr, prefix_cancel}
use Prim.Native.String.{len}
use first_golang.Sql.Exec.{Conn, ok, pure, calm}
use first_golang.Storage.Backend.{Storage, IsStorage, behind}
use first_golang.Storage.Router.{
  local_prefix, s3_prefix, router_storage, unavailable, router_read_file, router_file_size,
  router_hash_file, router_delete_file,
}
use first_golang.Storage.Router.Copy.{copy-Spares, copy-Stored}
use first_golang.Storage.Router.Laws.{
  AreApart, not_both, both, all_paths, goes, content_at, routed, routed-Acts, routed-Spares,
  routed-Reads,
}

module _ {S : Type 0} (l b : Storage S) (h : AreApart l b) where
  same_content :
      (p q : String) (s : S)
      → (all_paths l b).name p ≡ (all_paths l b).name q
      → (all_paths l b).content p s ≡ (all_paths l b).content q s
  same_content p q s e = elim (goes l (some b) p) [
    | inl (x, i, m) ↦ elim (goes l (some b) q) [
      | inl (y, j, n) ↦
          content_at l (some b) p (some l, x) s i
          ∙ h.first.by_name x y s (prefix_cancel local_prefix (l.name x) (l.name y) (sym m ∙ e ∙ n))
          ∙ sym (content_at l (some b) q (some l, y) s j)
      | inr (y, j, n) ↦ absurd (not_both (l.name x) (b.name y) (sym m ∙ e ∙ n))
    ]
    | inr (x, i, m) ↦ elim (goes l (some b) q) [
      | inl (y, j, n) ↦ absurd (not_both (l.name y) (b.name x) (sym n ∙ sym e ∙ m))
      | inr (y, j, n) ↦
          content_at l (some b) p (some b, x) s i
          ∙ h.second.by_name x y s (prefix_cancel s3_prefix (b.name x) (b.name y) (sym m ∙ e ∙ n))
          ∙ sym (content_at l (some b) q (some b, y) s j)
    ]
  ]

  -- A hash through the router is that of the local backend, which hashes as the other one.
  hash_through :
      (path x : String) (c : Conn S)
      → (router_hash_file (both l b) path c).0 ≡ ok x
      → (y : String) × ((all_paths l b).content path c.tables ≡ some y) × (x ≡ l.digest y)
  unfolding router_hash_file routed
  hash_through path x c =
      routed-Acts l b (unavailable (both l b) path) (λ a q. a.hash_file q)
        (λ o r _. r ≡ ok x → (y : String) × (o ≡ some y) × (x ≡ l.digest y)) path c
        (λ p. h.first.hash_gives p x c)
        (λ p r. let (y, e, z) = h.second.hash_gives p x c r in (y, e, z ∙ sym (h.digests y)))

  hash_at :
      (path y : String) (c : Conn S)
      → (all_paths l b).content path c.tables ≡ some y
      → (router_hash_file (both l b) path (calm c)).0 ≡ ok (l.digest y)
  unfolding router_hash_file routed
  hash_at path y c =
      routed-Acts l b (unavailable (both l b) path) (λ a q. a.hash_file q)
        (λ o r _. o ≡ some y → r ≡ ok (l.digest y)) path (calm c) (λ p. h.first.hash_works p y c)
        (λ p e. h.second.hash_works p y c e ∙ ap ok (sym (h.digests y)))

-- The router over two backends that share nothing and hash in the same way is again a backend, for
-- the paths with a prefix. Each operation acts on the object that the path names and leaves the
-- others alone: a read, a size and a hash that return are those of the stored content and change
-- nothing, a delete that returns has removed the object, and a copy that returns has stored the
-- source; where nothing fails, a delete returns, and so do the others but the copy, for an object
-- that is there.
pub router_storage-IsStorage :
    {S : Type 0} (l b : Storage S)
    → AreApart l b
    → IsStorage (router_storage (record { local = l; s3 = some b }))
unfolding router_storage routed router_read_file router_file_size router_hash_file
    router_delete_file
router_storage-IsStorage l b h = record {
  by_name = same_content l b h;
  read_reads = λ p offset.
      routed-Reads l b (unavailable (both l b) p) (λ a q. a.read_file q offset)
        (λ q. h.first.read_reads q offset) (λ q. h.second.read_reads q offset)
        (λ q. h.forth.read_ignores q offset) (λ q. h.back.read_ignores q offset) p;
  size_reads = λ p.
      routed-Reads l b (unavailable (both l b) p) (λ a q. a.file_size q) h.first.size_reads
        h.second.size_reads h.forth.size_ignores h.back.size_ignores p;
  hash_reads = λ p.
      routed-Reads l b (unavailable (both l b) p) (λ a q. a.hash_file q) h.first.hash_reads
        h.second.hash_reads h.forth.hash_ignores h.back.hash_ignores p;
  delete_spares = λ p.
      routed-Spares l b (pure tt) (λ a q. a.delete_file q) h.first.delete_spares
        h.second.delete_spares h.forth.delete_ignores h.back.delete_ignores p;
  copy_spares = λ src dst c q n. copy-Spares l b h src dst c q n;
  read_gives = λ p x offset c.
      routed-Acts l b (unavailable (both l b) p) (λ a q. a.read_file q offset)
        (λ o r _. r ≡ ok x → (y : String) × (o ≡ some y) × (x ≡ behind offset y)) p c
        (λ q. h.first.read_gives q x offset c) (λ q. h.second.read_gives q x offset c);
  size_gives = λ p n c.
      routed-Acts l b (unavailable (both l b) p) (λ a q. a.file_size q)
        (λ o r _. r ≡ ok n → (y : String) × (o ≡ some y) × (n ≡ len y)) p c
        (λ q. h.first.size_gives q n c) (λ q. h.second.size_gives q n c);
  hash_gives = λ p x c. hash_through l b h p x c;
  delete_removes = λ p c.
      routed-Acts l b (pure tt) (λ a q. a.delete_file q) (λ _ r o. r ≡ ok tt → o ≡ none) p c
        (λ q. h.first.delete_removes q c) (λ q. h.second.delete_removes q c);
  read_works = λ p y offset c.
      routed-Acts l b (unavailable (both l b) p) (λ a q. a.read_file q offset)
        (λ o r _. o ≡ some y → r ≡ ok (behind offset y)) p (calm c)
        (λ q. h.first.read_works q y offset c) (λ q. h.second.read_works q y offset c);
  size_works = λ p y c.
      routed-Acts l b (unavailable (both l b) p) (λ a q. a.file_size q)
        (λ o r _. o ≡ some y → r ≡ ok (len y)) p (calm c) (λ q. h.first.size_works q y c)
        (λ q. h.second.size_works q y c);
  hash_works = λ p y c. hash_at l b h p y c;
  delete_works = λ p c.
      routed-Acts l b (pure tt) (λ a q. a.delete_file q) (λ _ r _. r ≡ ok tt) p (calm c)
        (λ q. h.first.delete_works q c) (λ q. h.second.delete_works q c);
  copy_stores = λ src dst c n. copy-Stored l b h src dst c n;
}
