-- ===== src/Sql/Leads.antt =====
-- What holds of the outcome and of the tables after an action, where a predicate of the tables
-- holds before it: one rule for each way to build an action.
use first_golang.Prelude.{◌≡◌, refl, subst, String, suc, Bool, true, false, if◌then◌else◌}
use first_golang.Sql.Exec.{
  Conn, Result, ok, err, Error, Action, ◌>>=◌, pure, raise, statement, query, wrapped, wrap, driver,
  on_error, ⊤,
}
use first_golang.Sql.Keeps.{Keeps}

pub record Leads {S A : Type 0} (P : S → Type 0) (Q : Result A → S → Type 0) (m : Action S A)
    : Type 0 where
  pub at : (c : Conn S) → P c.tables → Q (m c).0 (m c).1.tables

-- A predicate of the value and of the tables, for the actions that return.
abbrev pub Returns : {S A : Type 0} → (A → S → Type 0) → Result A → S → Type 0
Returns Q (ok a) t = Q a t
Returns Q (err e) t = Unit

-- A predicate of the tables, whatever the outcome.
abbrev pub Always : {S A : Type 0} → (S → Type 0) → Result A → S → Type 0
Always Q r t = Q t

module _ {S A : Type 0} (P : S → Type 0) (Q : Result A → S → Type 0) where
  ran :
      (body : S → Result A × S)
      → ((t : S) → P t → Q (body t).0 (body t).1)
      → ((t : S) → P t → Q (err driver) t)
      → (c : Conn S) (b : Bool) → P c.tables
      → let r = elim b as (λ _. Result A × Conn S) [
        | true ↦ (err driver, record c { tick = suc c.tick })
        | false ↦ ((body c.tables).0, record c { tick = suc c.tick; tables = (body c.tables).1 })
      ] in
        Q r.0 r.1.tables
  ran body k f c true h = f c.tables h
  ran body k f c false h = k c.tables h

module _ {S A B : Type 0} (M : Result A → S → Type 0) (Q : Result B → S → Type 0) where
  resume :
      (r : Result A) (f : A → Action S B) (c : Conn S)
      → ((a : A) → Leads (M (ok a)) Q (f a))
      → ((e : Error) (t : S) → M (err e) t → Q (err e) t)
      → M r c.tables
      → let s = elim r as (λ _. Result B × Conn S) [ ok a ↦ f a c | err e ↦ (err e, c) ] in
        Q s.0 s.1.tables
  resume (ok a) f c k g h = (k a).at c h
  resume (err e) f c k g h = g e c.tables h

module _ {S A : Type 0} {P : S → Type 0} {Q : Result A → S → Type 0} where
  pub Leads-pure : (a : A) → ((t : S) → P t → Q (ok a) t) → Leads P Q (pure a)
  Leads-pure a k = record { at = λ c h. k c.tables h }

  pub Leads-raise : (e : Error) → ((t : S) → P t → Q (err e) t) → Leads P Q (raise e)
  Leads-raise e k = record { at = λ c h. k c.tables h }

  pub Leads-statement :
      (body : S → Result A × S)
      → ((t : S) → P t → Q (body t).0 (body t).1)
      → ((t : S) → P t → Q (err driver) t)
      → Leads P Q (statement body)
  Leads-statement body k f = record { at = λ c h. ran P Q body k f c (c.fails c.tick) h }

  pub Leads-either :
      (b : Bool) (m n : Action S A) → Leads P Q m → Leads P Q n → Leads P Q (if b then m else n)
  Leads-either true m n h k = h
  Leads-either false m n h k = k

  pub Leads-if :
      (b : Bool) (m n : Action S A)
      → (b ≡ true → Leads P Q m)
      → (b ≡ false → Leads P Q n)
      → Leads P Q (if b then m else n)
  Leads-if true m n h k = h refl
  Leads-if false m n h k = k refl

module _ {S A B : Type 0} {P : S → Type 0} {M : Result A → S → Type 0}
    {Q : Result B → S → Type 0} where
  pub Leads-bind :
      (m : Action S A) (f : A → Action S B)
      → Leads P M m
      → ((a : A) → Leads (M (ok a)) Q (f a))
      → ((e : Error) (t : S) → M (err e) t → Q (err e) t)
      → Leads P Q (m >>= f)
  Leads-bind m f h k g = record { at = λ c p. resume M Q (m c).0 f (m c).1 k g (h.at c p) }

module _ {S A : Type 0} {P : S → Type 0} where
  -- What is kept holds after, whatever the outcome.
  pub Leads-Keeps : (m : Action S A) → Keeps P m → Leads P (Always P) m
  Leads-Keeps m h = record { at = λ c p. h.at c p }

  pub Keeps-Leads : (m : Action S A) → Leads P (Always P) m → Keeps P m
  Keeps-Leads m h = record { at = λ c p. h.at c p }

  pub Leads-weaken :
      {Q : S → Type 0} {R R' : Result A → S → Type 0} (m : Action S A)
      → ((t : S) → Q t → P t)
      → ((r : Result A) (t : S) → R r t → R' r t)
      → Leads P R m
      → Leads Q R' m
  Leads-weaken m k g h = record { at = λ c p. g (m c).0 (m c).1.tables (h.at c (k c.tables p)) }

module _ {S A : Type 0} (Q : A → S → Type 0) where
  rewrapped :
      (text : String) (r : Result A) (t : S)
      → Returns Q r t
      → Returns Q (elim r as (λ _. Result A) [ ok a ↦ ok a | err e ↦ err (wrap text e) ]) t
  rewrapped text (ok a) t h = h
  rewrapped text (err e) t h = tt

  recovered :
      (r : Result A) (k : Action S ⊤) (c : Conn S)
      → Returns Q r c.tables
      → let s = elim r as (λ _. Result A × Conn S) [
        | ok a ↦ (ok a, c)
        | err e ↦ (err e, (k c).1)
      ] in
        Returns Q s.0 s.1.tables
  recovered (ok a) k c h = h
  recovered (err e) k c h = tt

module _ {S A : Type 0} {P : S → Type 0} {Q : A → S → Type 0} where
  pub Leads-wrapped :
      (text : String) (m : Action S A)
      → Leads P (Returns Q) m
      → Leads P (Returns Q) (wrapped text m)
  Leads-wrapped text m h = record { at = λ c p. rewrapped Q text (m c).0 (m c).1.tables (h.at c p) }

  pub Leads-on_error :
      (k : Action S ⊤) (m : Action S A) → Leads P (Returns Q) m → Leads P (Returns Q) (on_error k m)
  Leads-on_error k m h = record { at = λ c p. recovered Q (m c).0 k (m c).1 (h.at c p) }

module _ {S A : Type 0} {P : S → Type 0} {Q : A → S → Type 0} where
  pub Leads-returns :
      (m : Action S A)
      → Leads P (Returns Q) m
      → (c : Conn S) (a : A) → P c.tables
      → (m c).0 ≡ ok a
      → Q a (m c).1.tables
  Leads-returns m h c a p e = subst (λ r. Returns Q r (m c).1.tables) e (h.at c p)

module _ {S A B : Type 0} {P : S → Type 0} {Q : B → S → Type 0} where
  -- The first part keeps what the second one needs.
  pub Leads-then :
      (m : Action S A) (f : A → Action S B)
      → Keeps P m
      → ((a : A) → Leads P (Returns Q) (f a))
      → Leads P (Returns Q) (m >>= f)
  Leads-then m f h k = Leads-bind m f (Leads-Keeps m h) k (λ e t _. tt)

module _ {S A : Type 0} where
  abbrev pub Told : (S → Result A) → Result A → S → Type 0
  Told read (ok a) t = read t ≡ ok a
  Told read (err e) t = Unit

  told : (read : S → Result A) (r : Result A) (t : S) → read t ≡ r → Told read r t
  told read (ok a) t e = e
  told read (err x) t e = tt

module _ {S A : Type 0} {P : S → Type 0} where
  -- A query that returns has read the tables as they are then.
  pub Leads-query_knows : (read : S → Result A) → Leads P (λ r t. P t × Told read r t) (query read)
  Leads-query_knows read =
      Leads-statement (λ t. (read t, t)) (λ t p. (p, told read (read t) t refl)) (λ t p. (p, tt))

module _ {S A : Type 0} (P : S → Type 0) where
  learned :
      (read : S → Result A) (t : S) (r : Result A)
      → read t ≡ r
      → P t
      → Returns (λ a u. P u × (read u ≡ ok a)) r t
  learned read t (ok a) e p = (p, e)
  learned read t (err x) e p = tt

module _ {S A B : Type 0} {P : S → Type 0} {Q : B → S → Type 0} where
  -- The second part knows what the query has read.
  pub Leads-query :
      (read : S → Result A) (f : A → Action S B)
      → ((a : A) → Leads (λ t. P t × (read t ≡ ok a)) (Returns Q) (f a))
      → Leads P (Returns Q) (query read >>= f)
  Leads-query read f k =
      Leads-bind (query read) f
        (Leads-statement {Q = Returns (λ a t. P t × (read t ≡ ok a))} (λ t. (read t, t))
          (λ t p. learned P read t (read t) refl p) (λ t p. tt))
        k (λ e t _. tt)

module _ {S A B : Type 0} {P R : S → Type 0} where
  -- The first part keeps the predicate, which is enough where it fails.
  pub Leads-next :
      (m : Action S A) (f : A → Action S B)
      → Keeps P m
      → ((t : S) → P t → R t)
      → ((a : A) → Leads P (Always R) (f a))
      → Leads P (Always R) (m >>= f)
  Leads-next m f h k j = Leads-bind {M = Always P} m f (Leads-Keeps m h) j (λ e t p. k t p)

module _ {S A : Type 0} {P R : S → Type 0} where
  pub Leads-kept : (m : Action S A) → Keeps P m → ((t : S) → P t → R t) → Leads P (Always R) m
  Leads-kept m h k = record { at = λ c p. k (m c).1.tables (h.at c p) }
