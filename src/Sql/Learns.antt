-- ===== src/Sql/Learns.antt =====
-- Actions that keep a predicate of the tables and tell something about the value they return, and
-- the handling of errors after them.
use first_golang.Prelude.{◌≡◌, refl}
use first_golang.Sql.Exec.{Conn, Result, ok, err, Error, Action, ◌>>=◌, pure, query, handling}
use first_golang.Sql.Keeps.{Keeps}
use first_golang.Sql.Leads.{Leads, Always, Leads-statement, Leads-query_knows, Keeps-Leads}

-- The predicate, and of a value that is returned the knowledge about it.
abbrev pub Learns : {S A : Type 0} → (S → Type 0) → (A → Type 0) → Result A → S → Type 0
Learns P K (ok a) t = P t × K a
Learns P K (err e) t = P t

module _ {S A : Type 0} (P : S → Type 0) (K : A → Type 0) where
  learnt : (r : Result A) (t : S) → P t → ((a : A) → r ≡ ok a → K a) → Learns P K r t
  learnt (ok a) t p k = (p, k a refl)
  learnt (err e) t p k = p

  forget : (r : Result A) (t : S) → Learns P K r t → P t
  forget (ok a) t h = h.0
  forget (err e) t h = h

module _ {S A : Type 0} {P : S → Type 0} {K : A → Type 0} where
  pub Learns-query :
      (read : S → Result A)
      → ((t : S) (a : A) → P t → read t ≡ ok a → K a)
      → Leads P (Learns P K) (query read)
  Learns-query read k =
      Leads-statement (λ t. (read t, t)) (λ t p. learnt P K (read t) t p (λ a. k t a p)) (λ t p. p)

  pub Learns-Keeps : (m : Action S A) → Leads P (Learns P K) m → Keeps P m
  Learns-Keeps m h = record { at = λ c p. forget P K (m c).0 (m c).1.tables (h.at c p) }

  pub Learns-pure : (a : A) → K a → Leads P (Learns P K) (pure a)
  Learns-pure a k = record { at = λ c p. (p, k) }

module _ {S A B : Type 0} (P : S → Type 0) (K : A → Type 0) (L : B → Type 0) where
  resume :
      (r : Result A) (f : A → Action S B) (c : Conn S)
      → ((a : A) → K a → Leads P (Learns P L) (f a))
      → Learns P K r c.tables
      → let s = elim r as (λ _. Result B × Conn S) [ ok a ↦ f a c | err e ↦ (err e, c) ] in
        Learns P L s.0 s.1.tables
  resume (ok a) f c k h = (k a h.1).at c h.0
  resume (err e) f c k h = h

module _ {S A B : Type 0} {P : S → Type 0} {K : A → Type 0} {L : B → Type 0} where
  pub Learns-bind :
      (m : Action S A) (f : A → Action S B)
      → Leads P (Learns P K) m
      → ((a : A) → K a → Leads P (Learns P L) (f a))
      → Leads P (Learns P L) (m >>= f)
  Learns-bind m f h k = record { at = λ c p. resume P K L (m c).0 f (m c).1 k (h.at c p) }

module _ {S A B : Type 0} {P : S → Type 0} {L : B → Type 0} where
  -- Nothing is known of the first value.
  pub Learns-then :
      (m : Action S A) (f : A → Action S B)
      → Keeps P m
      → ((a : A) → Leads P (Learns P L) (f a))
      → Leads P (Learns P L) (m >>= f)
  Learns-then m f h k =
      Learns-bind {K = λ _. Unit} m f
        (record { at = λ c p. learnt P (λ _. Unit) (m c).0 (m c).1.tables (h.at c p) (λ a e. tt) })
        (λ a _. k a)

module _ {S A B : Type 0} (M : Result A → S → Type 0) (Q : Result B → S → Type 0) where
  handled :
      (r : Result A) (g : Error → Action S B) (f : A → Action S B) (c : Conn S)
      → ((e : Error) → Leads (M (err e)) Q (g e))
      → ((a : A) → Leads (M (ok a)) Q (f a))
      → M r c.tables
      → let s = elim r as (λ _. Result B × Conn S) [ ok a ↦ f a c | err e ↦ g e c ] in
        Q s.0 s.1.tables
  handled (ok a) g f c j k h = (k a).at c h
  handled (err e) g f c j k h = (j e).at c h

module _ {S A B : Type 0} {P : S → Type 0} {M : Result A → S → Type 0}
    {Q : Result B → S → Type 0} where
  pub Leads-handling :
      (g : Error → Action S B) (m : Action S A) (f : A → Action S B)
      → Leads P M m
      → ((e : Error) → Leads (M (err e)) Q (g e))
      → ((a : A) → Leads (M (ok a)) Q (f a))
      → Leads P Q (handling g m f)
  Leads-handling g m f h j k = record { at = λ c p. handled M Q (m c).0 g f (m c).1 j k (h.at c p) }

module _ {S A B : Type 0} {P : S → Type 0} {K : A → Type 0} where
  -- What the first part tells is there to show that the second part keeps the predicate.
  pub Keeps-handling_learnt :
      (g : Error → Action S B) (m : Action S A) (f : A → Action S B)
      → Leads P (Learns P K) m
      → ((e : Error) → Keeps P (g e))
      → ((a : A) → K a → Keeps P (f a))
      → Keeps P (handling g m f)
  Keeps-handling_learnt g m f h j k = record {
    at = λ c p.
        (Leads-handling {M = Learns P K} {Q = Always P} g m f h (λ e. record { at = (j e).at })
            (λ a. record { at = λ d q. (k a q.1).at d q.0 })).at
          c p;
  }

module _ {S A B : Type 0} {P : S → Type 0} where
  -- The second part starts in the state that was read.
  pub Keeps-handling_read :
      (g : Error → Action S B) (read : S → Result A) (f : A → Action S B)
      → ((e : Error) → Keeps P (g e))
      → ((a : A) (c : Conn S) → P c.tables → read c.tables ≡ ok a → P (f a c).1.tables)
      → Keeps P (handling g (query read) f)
  Keeps-handling_read g read f j k = Keeps-Leads (handling g (query read) f) (
      Leads-handling g (query read) f (Leads-query_knows read)
        (λ e. record { at = λ c p. (j e).at c p.0 }) (λ a. record { at = λ c p. k a c p.0 p.1 }))
