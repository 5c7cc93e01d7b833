-- ===== src/Storage/Router/Laws.antt =====
-- What the router's callers rely on (internal/storage/router.go), for any two backends.
use first_golang.Prelude.{
  ℕ, String, Option, none, some, ◌≡◌, ◌≢◌, refl, sym, ap, ◌∙◌, ◌⊎◌, inl, inr, ◌&◌, has_prefix,
  trim_prefix, cut_prefix, cut_prefix-append, Bool-cases, arith,
}
use Prim.Native.String.append
use first_golang.Sql.Exec.{Conn, Action, Result}
use first_golang.Storage.Backend.{Storage, IsStorage, Spares, Reads}
use first_golang.Storage.Router.{
  Router, local_prefix, s3_prefix, backend_and_path, local_raw, router_storage, on_backend, shown,
}

-- The operations of the first change no object of the second.
pub record Ignores {S : Type 0} (a b : Storage S) : Type 0 where
  pub read_ignores : (p : String) (offset : ℕ) → Reads b (a.read_file p offset)
  pub size_ignores : (p : String) → Reads b (a.file_size p)
  pub hash_ignores : (p : String) → Reads b (a.hash_file p)
  pub delete_ignores : (p : String) → Reads b (a.delete_file p)
  pub copy_ignores : (src dst : String) → Reads b (a.copy_file src dst)

-- Two backends that share nothing, and hash in the same way.
pub record AreApart {S : Type 0} (a b : Storage S) : Type 0 where
  pub first : IsStorage a
  pub second : IsStorage b
  pub forth : Ignores a b
  pub back : Ignores b a
  pub identities : a.identity ≢ b.identity
  pub digests : (x : String) → a.digest x ≡ b.digest x

pub not_s3 : (x : String) → cut_prefix s3_prefix (local_prefix & x) ≡ none
unfolding cut_prefix
not_s3 x = rw (append.cons _ _ x) refl

pub not_both : (x y : String) → local_prefix & x ≢ s3_prefix & y
not_both x y h =
    let e : none ≡ some y =
      sym (not_s3 x) ∙ ap (cut_prefix s3_prefix) h ∙ cut_prefix-append s3_prefix y in
    cc

module _ {S : Type 0} (l : Storage S) (o : Option (Storage S)) where
  abbrev pub router : Router S
  router = record { local = l; s3 = o }

  abbrev pub s3_name : String → String
  s3_name raw = elim o [ some b ↦ b.name raw | none ↦ raw ]

  -- Where a path leads, and the name of the object there.
  abbrev pub Goes : String → Type 0
  Goes path =
      ((raw : String) × (backend_and_path router path ≡ (some l, raw))
        × ((router_storage router).name path ≡ local_prefix & l.name raw))
      ⊎ ((raw : String) × (backend_and_path router path ≡ (o, raw))
          × ((router_storage router).name path ≡ s3_prefix & s3_name raw))

  pub goes : (path : String) → Goes path
  unfolding router_storage backend_and_path local_raw
  goes path = elim (Bool-cases (has_prefix path s3_prefix)) [
    | inl e ↦ inr (trim_prefix path s3_prefix, rw e refl, rw e refl)
    | inr e ↦ inl (local_raw router path, rw e (ground arith), rw e refl)
  ]

  pub content_at :
      (q : String) (x : Option (Storage S) × String) (s : S)
      → backend_and_path router q ≡ x
      → (router_storage router).content q s ≡ shown router x s
  unfolding router_storage
  content_at q x s e = ap (λ z. shown router z s) e

module _ {S : Type 0} (l b : Storage S) where
  abbrev pub both : Router S
  both = router l (some b)

  -- The two backends as one storage of prefixed paths.
  abbrev pub all_paths : Storage S
  all_paths = router_storage both

-- One rule for the operations that change at most the object at their path.
module _ {S : Type 0} (l b : Storage S) {A : Type 0} (missing : Action S A)
    (f : Storage S → String → Action S A) where
  unfoldable pub routed : String → Action S A
  routed path = on_backend (router l (some b)) (backend_and_path (router l (some b)) path) missing f

  routed_at :
      (path : String) (x : Option (Storage S) × String) (c : Conn S)
      → backend_and_path (router l (some b)) path ≡ x
      → routed path c ≡ on_backend (router l (some b)) x missing f c
  unfolding routed
  routed_at path x c e = ap (λ z. on_backend (router l (some b)) z missing f c) e

  -- An operation at one path, seen at another.
  routed_seen :
      (path q : String) (a d : Storage S) (p r : String) (c : Conn S)
      → backend_and_path (router l (some b)) path ≡ (some a, p)
      → backend_and_path (router l (some b)) q ≡ (some d, r)
      → d.content r (f a p c).1.tables ≡ d.content r c.tables
      → (router_storage (router l (some b))).content q (routed path c).1.tables
        ≡ (router_storage (router l (some b))).content q c.tables
  routed_seen path q a d p r c e e' h =
      content_at l (some b) q (some d, r) (routed path c).1.tables e'
      ∙ ap (λ z. d.content r z.1.tables) (routed_at path (some a, p) c e)
      ∙ h
      ∙ sym (content_at l (some b) q (some d, r) c.tables e')

  -- What an operation says of the object at its path, and of that object afterwards, holds behind the
  -- router.
  abbrev Acts :
      (Option String → Result A → Option String → Type 0) → Storage S → String → Conn S → Type 0
  Acts says a p c = says (a.content p c.tables) (f a p c).0 (a.content p (f a p c).1.tables)

  acts_at :
      (says : Option String → Result A → Option String → Type 0) (path : String) (a : Storage S)
      (p : String) (c : Conn S)
      → backend_and_path (router l (some b)) path ≡ (some a, p)
      → Acts says a p c
      → says
          ((router_storage (router l (some b))).content path c.tables)
          (routed path c).0
          ((router_storage (router l (some b))).content path (routed path c).1.tables)
  acts_at says path a p c e k =
      let now = content_at l (some b) path (some a, p) c.tables e in
      let after = content_at l (some b) path (some a, p) (routed path c).1.tables e in
      let same = routed_at path (some a, p) c e in rw now (rw after (rw same k))

  pub routed-Acts :
      (says : Option String → Result A → Option String → Type 0) (path : String) (c : Conn S)
      → ((raw : String) → Acts says l raw c)
      → ((raw : String) → Acts says b raw c)
      → says
          ((router_storage (router l (some b))).content path c.tables)
          (routed path c).0
          ((router_storage (router l (some b))).content path (routed path c).1.tables)
  routed-Acts says path c at_l at_b = elim (goes l (some b) path) [
    | inl (p, e, m) ↦ acts_at says path l p c e (at_l p)
    | inr (p, e, m) ↦ acts_at says path b p c e (at_b p)
  ]

  pub routed-Spares :
      ((raw : String) → Spares l raw (f l raw))
      → ((raw : String) → Spares b raw (f b raw))
      → ((raw : String) → Reads b (f l raw))
      → ((raw : String) → Reads l (f b raw))
      → (path : String) → Spares (router_storage (router l (some b))) path (routed path)
  routed-Spares at_l at_b forth back path c q n = elim (goes l (some b) path) [
    | inl (p, e, m) ↦ elim (goes l (some b) q) [
      | inl (r, e', m') ↦
          routed_seen path q l l p r c e e'
            (at_l p c r λ h. n (m' ∙ ap (λ x. local_prefix & x) h ∙ sym m))
      | inr (r, e', m') ↦ routed_seen path q l b p r c e e' (forth p c r)
    ]
    | inr (p, e, m) ↦ elim (goes l (some b) q) [
      | inl (r, e', m') ↦ routed_seen path q b l p r c e e' (back p c r)
      | inr (r, e', m') ↦
          routed_seen path q b b p r c e e'
            (at_b p c r λ h. n (m' ∙ ap (λ x. s3_prefix & x) h ∙ sym m))
    ]
  ]

  pub routed-Reads :
      ((raw : String) → Reads l (f l raw))
      → ((raw : String) → Reads b (f b raw))
      → ((raw : String) → Reads b (f l raw))
      → ((raw : String) → Reads l (f b raw))
      → (path : String) → Reads (router_storage (router l (some b))) (routed path)
  routed-Reads at_l at_b forth back path c q = elim (goes l (some b) path) [
    | inl (p, e, m) ↦ elim (goes l (some b) q) [
      | inl (r, e', m') ↦ routed_seen path q l l p r c e e' (at_l p c r)
      | inr (r, e', m') ↦ routed_seen path q l b p r c e e' (forth p c r)
    ]
    | inr (p, e, m) ↦ elim (goes l (some b) q) [
      | inl (r, e', m') ↦ routed_seen path q b l p r c e e' (back p c r)
      | inr (r, e', m') ↦ routed_seen path q b b p r c e e' (at_b p c r)
    ]
  ]
