-- ===== src/Storage/Router/Copy.antt =====
-- The copies of the router over two backends (internal/storage/router.go).
use first_golang.Prelude.{
  String, some, ◌≡◌, ◌≢◌, refl, sym, ap, ◌∙◌, inl, inr, ◌&◌, ==_refl, ==_apart,
}
use first_golang.Sql.Exec.{Conn, ok, err, Error, message}
use first_golang.Storage.Backend.{Storage, IsStorage}
use first_golang.Storage.Router.{local_prefix, s3_prefix, backend_and_path, router_copy_file}
use first_golang.Storage.Router.Laws.{AreApart, both, all_paths, goes, content_at}

module _ {S : Type 0} (l b : Storage S) (h : AreApart l b) where
  -- Within one backend a copy is that backend's, and between two it is refused.
  copy_within :
      (src dst sp dp : String) (a : Storage S) (c : Conn S)
      → backend_and_path (both l b) src ≡ (some a, sp)
      → backend_and_path (both l b) dst ≡ (some a, dp)
      → router_copy_file (both l b) src dst c ≡ a.copy_file sp dp c
  unfolding router_copy_file
  copy_within src dst sp dp a c e e' = rw (e, e', ==_refl a.identity) refl

  copy_across :
      (src dst sp dp : String) (a d : Storage S) (c : Conn S)
      → a.identity ≢ d.identity
      → backend_and_path (both l b) src ≡ (some a, sp)
      → backend_and_path (both l b) dst ≡ (some d, dp)
      → (error : Error) × (router_copy_file (both l b) src dst c ≡ (err error, c))
  unfolding router_copy_file
  copy_across src dst sp dp a d c n e e' = (
    message ("cross-backend copy unsupported (src=" & src & " dst=" & dst & ")"),
    rw (e, e', ==_apart a.identity d.identity n) refl,
  )

  abbrev pub Spared : String → String → Conn S → Type 0
  Spared src dst c =
      (q : String)
      → (all_paths l b).name q ≢ (all_paths l b).name dst
      → (all_paths l b).content q (router_copy_file (both l b) src dst c).1.tables
        ≡ (all_paths l b).content q c.tables

  refused_Spared :
      (src dst : String) (c : Conn S)
      → (error : Error) × (router_copy_file (both l b) src dst c ≡ (err error, c))
      → Spared src dst c
  refused_Spared src dst c (error, e) q n = ap (λ z. (all_paths l b).content q z.1.tables) e

  copy_seen :
      (src dst sp dp q r : String) (a d : Storage S) (c : Conn S)
      → backend_and_path (both l b) src ≡ (some a, sp)
      → backend_and_path (both l b) dst ≡ (some a, dp)
      → backend_and_path (both l b) q ≡ (some d, r)
      → d.content r (a.copy_file sp dp c).1.tables ≡ d.content r c.tables
      → (all_paths l b).content q (router_copy_file (both l b) src dst c).1.tables
        ≡ (all_paths l b).content q c.tables
  copy_seen src dst sp dp q r a d c e e' i k =
      content_at l (some b) q (some d, r) (router_copy_file (both l b) src dst c).1.tables i
      ∙ ap (λ z. d.content r z.1.tables) (copy_within src dst sp dp a c e e')
      ∙ k
      ∙ sym (content_at l (some b) q (some d, r) c.tables i)

  pub copy-Spares : (src dst : String) (c : Conn S) → Spared src dst c
  copy-Spares src dst c = elim (goes l (some b) src) [
    | inl (sp, e, m) ↦ elim (goes l (some b) dst) [
      | inl (dp, e', m') ↦ λ q n. elim (goes l (some b) q) [
        | inl (r, i, k) ↦
            copy_seen src dst sp dp q r l l c e e' i
              (h.first.copy_spares sp dp c r λ z. n (k ∙ ap (λ x. local_prefix & x) z ∙ sym m'))
        | inr (r, i, k) ↦ copy_seen src dst sp dp q r l b c e e' i (h.forth.copy_ignores sp dp c r)
      ]
      | inr (dp, e', m') ↦
          refused_Spared src dst c (copy_across src dst sp dp l b c h.identities e e')
    ]
    | inr (sp, e, m) ↦ elim (goes l (some b) dst) [
      | inl (dp, e', m') ↦
          refused_Spared src dst c
            (copy_across src dst sp dp b l c (λ z. h.identities (sym z)) e e')
      | inr (dp, e', m') ↦ λ q n. elim (goes l (some b) q) [
        | inl (r, i, k) ↦ copy_seen src dst sp dp q r b l c e e' i (h.back.copy_ignores sp dp c r)
        | inr (r, i, k) ↦
            copy_seen src dst sp dp q r b b c e e' i
              (h.second.copy_spares sp dp c r λ z. n (k ∙ ap (λ x. s3_prefix & x) z ∙ sym m'))
      ]
    ]
  ]

  abbrev pub Stored : String → String → Conn S → Type 0
  Stored src dst c =
      (router_copy_file (both l b) src dst c).0 ≡ ok tt
      → (all_paths l b).content dst (router_copy_file (both l b) src dst c).1.tables
        ≡ (all_paths l b).content src c.tables

  refused_Stored :
      (src dst : String) (c : Conn S)
      → (error : Error) × (router_copy_file (both l b) src dst c ≡ (err error, c))
      → Stored src dst c
  refused_Stored src dst c (error, e) r =
      absurd (let z : err error ≡ ok tt = sym (ap (λ z. z.0) e) ∙ r in cc)

  within_Stored :
      (src dst sp dp : String) (a : Storage S) (c : Conn S)
      → IsStorage a
      → a.name sp ≢ a.name dp
      → backend_and_path (both l b) src ≡ (some a, sp)
      → backend_and_path (both l b) dst ≡ (some a, dp)
      → Stored src dst c
  within_Stored src dst sp dp a c k n e e' r =
      let w = copy_within src dst sp dp a c e e' in
      content_at l (some b) dst (some a, dp) (router_copy_file (both l b) src dst c).1.tables e'
      ∙ ap (λ z. a.content dp z.1.tables) w
      ∙ k.copy_stores sp dp c n (sym (ap (λ z. z.0) w) ∙ r)
      ∙ sym (content_at l (some b) src (some a, sp) c.tables e)

  pub copy-Stored :
      (src dst : String) (c : Conn S)
      → (all_paths l b).name src ≢ (all_paths l b).name dst
      → Stored src dst c
  copy-Stored src dst c n = elim (goes l (some b) src) [
    | inl (sp, e, m) ↦ elim (goes l (some b) dst) [
      | inl (dp, e', m') ↦
          within_Stored src dst sp dp l c h.first
            (λ z. n (m ∙ ap (λ x. local_prefix & x) z ∙ sym m')) e e'
      | inr (dp, e', m') ↦
          refused_Stored src dst c (copy_across src dst sp dp l b c h.identities e e')
    ]
    | inr (sp, e, m) ↦ elim (goes l (some b) dst) [
      | inl (dp, e', m') ↦
          refused_Stored src dst c
            (copy_across src dst sp dp b l c (λ z. h.identities (sym z)) e e')
      | inr (dp, e', m') ↦
          within_Stored src dst sp dp b c h.second (λ z. n (m ∙ ap (λ x. s3_prefix & x) z ∙ sym m'))
            e e'
    ]
  ]
