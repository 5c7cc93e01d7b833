-- ===== src/Sql/Refuses.antt =====
-- Actions that do not return where a predicate of the tables holds.
use first_golang.Prelude.{◌≡◌, ◌≢◌, refl, String, Bool, true, false, if◌then◌else◌}
use first_golang.Sql.Exec.{Conn, Result, ok, err, Error, Action, ◌>>=◌, raise, wrapped, wrap}
use first_golang.Sql.Keeps.{Keeps}

pub record Refuses {S A : Type 0} (P : S → Type 0) (m : Action S A) : Type 0 where
  pub at : (c : Conn S) (a : A) → P c.tables → (m c).0 ≢ ok a

module _ {A : Type 0} where
  unwrap :
      (text : String) (r : Result A) (a : A)
      → elim r as (λ _. Result A) [ ok x ↦ ok x | err e ↦ err (wrap text e) ] ≡ ok a
      → r ≡ ok a
  unwrap text (ok x) a h = h
  unwrap text (err e) a h = absurd (cc)

module _ {S A : Type 0} {P : S → Type 0} where
  pub Refuses-raise : (e : Error) → Refuses P (raise {A = A} e)
  Refuses-raise e = record { at = λ c a h k. cc }

  pub Refuses-if :
      (b : Bool) (m n : Action S A) → Refuses P m → Refuses P n → Refuses P (if b then m else n)
  Refuses-if true m n h k = h
  Refuses-if false m n h k = k

  pub Refuses-wrapped : (text : String) (m : Action S A) → Refuses P m → Refuses P (wrapped text m)
  Refuses-wrapped text m h = record { at = λ c a p k. h.at c a p (unwrap text (m c).0 a k) }

module _ {S A B : Type 0} where
  resume :
      (r : Result A) (f : A → Action S B) (c : Conn S) (b : B)
      → ((a : A) → r ≡ ok a → (f a c).0 ≢ ok b)
      → (elim r as (λ _. Result B × Conn S) [ ok a ↦ f a c | err e ↦ (err e, c) ]).0 ≢ ok b
  resume (ok a) f c b k h = k a refl h
  resume (err e) f c b k h = cc

module _ {S A B : Type 0} {P : S → Type 0} where
  pub Refuses-first : (m : Action S A) (f : A → Action S B) → Refuses P m → Refuses P (m >>= f)
  Refuses-first m f h = record { at = λ c b p. resume (m c).0 f (m c).1 b (λ a e _. h.at c a p e) }

  -- The second part refuses whatever the first may return.
  pub Refuses-then :
      (m : Action S A) (f : A → Action S B)
      → Keeps P m
      → ((a : A) (c : Conn S) → (m c).0 ≡ ok a → Refuses P (f a))
      → Refuses P (m >>= f)
  Refuses-then m f k h = record {
    at = λ c b p. resume (m c).0 f (m c).1 b (λ a e. (h a c e).at (m c).1 b (k.at c p));
  }
