-- ===== src/Sql/Ensures.antt =====
-- Actions after which a predicate of the tables holds, where they return.
use first_golang.Prelude.{◌≡◌, refl, String, Bool, true, false, if◌then◌else◌}
use first_golang.Sql.Exec.{
  Conn, Result, ok, err, Error, Action, ◌>>=◌, ◌>>◌, pure, raise, statement, wrapped, transaction,
  to_commit, or_rollback, wrap,
}
use first_golang.Sql.Keeps.{Keeps, Keeps-bind, Keeps-statement, Keeps-pure}

pub record Ensures {S A : Type 0} (P : S → Type 0) (m : Action S A) : Type 0 where
  pub at : (c : Conn S) (a : A) → (m c).0 ≡ ok a → P (m c).1.tables

module _ {A : Type 0} where
  unwrap :
      (text : String) (r : Result A) (a : A)
      → elim r as (λ _. Result A) [ ok x ↦ ok x | err e ↦ err (wrap text e) ] ≡ ok a
      → r ≡ ok a
  unwrap text (ok x) a h = h
  unwrap text (err e) a h = absurd (cc)

module _ {S A : Type 0} {P : S → Type 0} where
  pub Ensures-raise : (e : Error) → Ensures P (raise {A = A} e)
  Ensures-raise e = record { at = λ c a h. absurd (cc) }

  pub Ensures-if :
      (b : Bool) (m n : Action S A) → Ensures P m → Ensures P n → Ensures P (if b then m else n)
  Ensures-if true m n h k = h
  Ensures-if false m n h k = k

  pub Ensures-wrapped : (text : String) (m : Action S A) → Ensures P m → Ensures P (wrapped text m)
  Ensures-wrapped text m h = record { at = λ c a k. h.at c a (unwrap text (m c).0 a k) }

module _ {S A B : Type 0} (P : S → Type 0) where
  resume :
      (r : Result A) (f : A → Action S B) (c : Conn S)
      → ((a : A) → r ≡ ok a → (b : B) → (f a c).0 ≡ ok b → P (f a c).1.tables)
      → (b : B)
      → (elim r as (λ _. Result B × Conn S) [ ok a ↦ f a c | err e ↦ (err e, c) ]).0 ≡ ok b
      → P (elim r as (λ _. Result B × Conn S) [ ok a ↦ f a c | err e ↦ (err e, c) ]).1.tables
  resume (ok a) f c k b h = k a refl b h
  resume (err e) f c k b h = absurd (cc)

module _ {S A B : Type 0} {P : S → Type 0} where
  -- The second part ensures it.
  pub Ensures-then :
      (m : Action S A) (f : A → Action S B) → ((a : A) → Ensures P (f a)) → Ensures P (m >>= f)
  Ensures-then m f k = record {
    at = λ c b h. resume P (m c).0 f (m c).1 (λ a _. (k a).at (m c).1) b h;
  }

  -- The first part ensures it and the second keeps it.
  pub Ensures-first :
      (m : Action S A) (f : A → Action S B)
      → Ensures P m
      → ((a : A) → Keeps P (f a))
      → Ensures P (m >>= f)
  Ensures-first m f h k = record {
    at = λ c b q. resume P (m c).0 f (m c).1 (λ a e _ _. (k a).at (m c).1 (h.at c a e)) b q;
  }

module _ {S A : Type 0} (P : S → Type 0) where
  settle :
      (r : Result A) (c : Conn S) (t : S) (a : A)
      → (r ≡ ok a → P c.tables)
      → (elim r as (λ _. Result A × Conn S) [
        | ok a ↦ (ok a, c)
        | err e ↦ (err e, record c { tables = t })
      ]).0
        ≡ ok a
      → P
          (elim r as (λ _. Result A × Conn S) [
            | ok a ↦ (ok a, c)
            | err e ↦ (err e, record c { tables = t })
          ]).1.tables
  settle (ok x) c t a k h = k h
  settle (err e) c t a k h = absurd (cc)

  Ensures-to_commit : (m : Action S A) → Ensures P m → Ensures P (to_commit m)
  Ensures-to_commit m h =
      Ensures-first m (λ a. statement (λ t. (ok tt, t)) >> pure a) h
        λ a.
          Keeps-bind (statement (λ t. (ok tt, t))) (λ _. pure a)
            (Keeps-statement (λ t. (ok tt, t)) (λ t p. p)) (λ _. Keeps-pure a)

  pub Ensures-transaction : (m : Action S A) → Ensures P m → Ensures P (transaction m)
  Ensures-transaction m h =
      Ensures-then (statement (λ t. (ok tt, t))) (λ _. or_rollback m)
        λ _. record {
          at = λ c a k.
              settle (to_commit m c).0 (to_commit m c).1 c.tables a ((Ensures-to_commit m h).at c a)
                k;
        }

module _ {S A B : Type 0} {P : S → Type 0} where
  -- The second part ensures it after whatever the first may return.
  pub Ensures-known :
      (m : Action S A) (f : A → Action S B)
      → ((a : A) (c : Conn S) → (m c).0 ≡ ok a → Ensures P (f a))
      → Ensures P (m >>= f)
  Ensures-known m f k = record {
    at = λ c b h. resume P (m c).0 f (m c).1 (λ a e. (k a c e).at (m c).1) b h;
  }

pub Ensures-if_true :
    {S A : Type 0} {P : S → Type 0} (b : Bool) (m n : Action S A)
    → b ≡ true
    → Ensures P m
    → Ensures P (if b then m else n)
Ensures-if_true true m n e h = h
Ensures-if_true false m n e h = absurd (cc)
