-- ===== src/Storage/Router/Fronts.antt =====
-- What the callers of both the router and its local backend rely on: the router shows what the
-- local backend writes under the prefix of local files.
use first_golang.Prelude.{String, none, some, ◌≡◌, ◌≢◌, sym, ap, ◌∙◌, inl, inr, ◌&◌}
use first_golang.Sql.Exec.{Conn, Action}
use first_golang.Storage.Backend.{Storage, IsStorage, IsWritable, Reads, Spares}
use first_golang.Storage.Router.{local_prefix, backend_and_path}
use first_golang.Storage.Router.Laws.{AreApart, both, all_paths, goes, content_at}
use first_golang.Storage.Router.Refines.{router_storage-IsStorage}
use first_golang.Storage.Router.Routes.{local_routes}

-- The path under which a file of the local backend is stored.
abbrev pub stored : String → String
stored raw = local_prefix & raw

pub record Fronts {S : Type 0} (storage local : Storage S) : Type 0 where
  pub lawful : IsStorage storage
  pub writable : IsWritable local
  pub is_named : (raw : String) → storage.name (stored raw) ≡ stored raw
  pub shows : (raw : String) (s : S) → storage.content (stored raw) s ≡ local.content raw s
  pub write_aside :
      (raw text : String) (c : Conn S) (q : String)
      → storage.name q ≢ stored raw
      → storage.content q (local.write_file raw text c).1.tables ≡ storage.content q c.tables
  pub delete_aside :
      (raw : String) (c : Conn S) (q : String)
      → storage.name q ≢ stored raw
      → storage.content q (local.delete_file raw c).1.tables ≡ storage.content q c.tables
  pub hash_aside : (raw : String) → Reads storage (local.hash_file raw)

module _ {S : Type 0} (l b : Storage S) (h : AreApart l b) (w : IsWritable l)
    (plain : (raw : String) → l.name raw ≡ raw)
    (apart : (raw text : String) → Reads b (l.write_file raw text)) where
  local_name : (raw : String) → (all_paths l b).name (stored raw) ≡ stored raw
  local_name raw = elim (goes l (some b) (stored raw)) [
    | inl (p, e, m) ↦
        let k : p ≡ raw = ap (λ z. z.1) (sym e ∙ local_routes (both l b) raw) in
        m ∙ ap (λ z. local_prefix & l.name z) k ∙ ap (λ z. local_prefix & z) (plain raw)
    | inr (p, e, m) ↦
        let k : some b ≡ some l = ap (λ z. z.0) (sym e ∙ local_routes (both l b) raw) in
        absurd (h.identities (ap (λ z. elim z [ none ↦ 0 | some a ↦ a.identity ]) (sym k)))
  ]

  seen :
      {A : Type 0} (m : Action S A) (q r : String) (a : Storage S) (c : Conn S)
      → backend_and_path (both l b) q ≡ (some a, r)
      → a.content r (m c).1.tables ≡ a.content r c.tables
      → (all_paths l b).content q (m c).1.tables ≡ (all_paths l b).content q c.tables
  seen m q r a c e k =
      content_at l (some b) q (some a, r) (m c).1.tables e
      ∙ k
      ∙ sym (content_at l (some b) q (some a, r) c.tables e)

  -- An operation of the local backend at one path, seen through the router at another.
  aside :
      {A : Type 0} (m : Action S A) (raw : String)
      → Spares l raw m
      → Reads b m
      → (c : Conn S) (q : String) → (all_paths l b).name q ≢ stored raw
      → (all_paths l b).content q (m c).1.tables ≡ (all_paths l b).content q c.tables
  aside m raw k i c q n = elim (goes l (some b) q) [
    | inl (r, e, j) ↦
        seen m q r l c e (k c r λ z. n (j ∙ ap (λ x. local_prefix & x) (z ∙ plain raw)))
    | inr (r, e, j) ↦ seen m q r b c e (i c r)
  ]

  reading : {A : Type 0} (m : Action S A) → Reads l m → Reads b m → Reads (all_paths l b) m
  reading m k i c q = elim (goes l (some b) q) [
    | inl (r, e, _) ↦ seen m q r l c e (k c r)
    | inr (r, e, _) ↦ seen m q r b c e (i c r)
  ]

  pub router-Fronts : Fronts (all_paths l b) l
  router-Fronts = record {
    lawful = router_storage-IsStorage l b h;
    writable = w;
    is_named = local_name;
    shows =
        λ raw s. content_at l (some b) (stored raw) (some l, raw) s (local_routes (both l b) raw);
    write_aside =
        λ raw text. aside (l.write_file raw text) raw (w.write_spares raw text) (apart raw text);
    delete_aside = λ raw.
        aside (l.delete_file raw) raw (h.first.delete_spares raw) (h.forth.delete_ignores raw);
    hash_aside =
        λ raw. reading (l.hash_file raw) (h.first.hash_reads raw) (h.forth.hash_ignores raw);
  }
