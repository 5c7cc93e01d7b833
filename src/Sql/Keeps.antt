-- ===== src/Sql/Keeps.antt =====
-- Actions that keep a predicate of the tables, whether they return or fail: one rule for each way
-- to build an action.
use first_golang.Prelude.{String, suc, Bool, true, false, if◌then◌else◌}
use first_golang.Sql.Exec.{
  Conn, Result, ok, err, Error, Action, ◌>>=◌, ◌>>◌, pure, raise, statement, ignore, now, random,
  transaction, to_commit, or_rollback, update, query, wrapped, otherwise, put, driver, attempt,
  on_error, handling, ⊤,
}

pub record Keeps {S A : Type 0} (P : S → Type 0) (m : Action S A) : Type 0 where
  pub at : (c : Conn S) → P c.tables → P (m c).1.tables

module _ {S A : Type 0} {P : S → Type 0} where
  pub Keeps-pure : (a : A) → Keeps P (pure a)
  Keeps-pure a = record { at = λ c h. h }

  pub Keeps-raise : (e : Error) → Keeps P (raise {A = A} e)
  Keeps-raise e = record { at = λ c h. h }

  ran :
      (body : S → Result A × S)
      → ((t : S) → P t → P (body t).1)
      → (c : Conn S) (b : Bool) → P c.tables
      → P
          (elim b as (λ _. Result A × Conn S) [
            | true ↦ (err driver, record c { tick = suc c.tick })
            | false ↦
                ((body c.tables).0, record c { tick = suc c.tick; tables = (body c.tables).1 })
          ]).1.tables
  ran body k c true h = h
  ran body k c false h = k c.tables h

  pub Keeps-statement :
      (body : S → Result A × S) → ((t : S) → P t → P (body t).1) → Keeps P (statement body)
  Keeps-statement body k = record { at = λ c h. ran body k c (c.fails c.tick) h }

  pub Keeps-ignore : (m : Action S A) → Keeps P m → Keeps P (ignore m)
  Keeps-ignore m h = record { at = λ c p. h.at c p }

  pub Keeps-wrapped : (text : String) (m : Action S A) → Keeps P m → Keeps P (wrapped text m)
  Keeps-wrapped text m h = record { at = λ c p. h.at c p }

  pub Keeps-otherwise : (a : A) (m : Action S A) → Keeps P m → Keeps P (otherwise a m)
  Keeps-otherwise a m h = record { at = λ c p. h.at c p }

  pub Keeps-attempt : (m : Action S A) → Keeps P m → Keeps P (attempt m)
  Keeps-attempt m h = record { at = λ c p. h.at c p }

  recovered :
      (r : Result A) (k : Action S ⊤) (c : Conn S)
      → Keeps P k
      → P c.tables
      → P
          (elim r as (λ _. Result A × Conn S) [
            | ok a ↦ (ok a, c)
            | err e ↦ (err e, (k c).1)
          ]).1.tables
  recovered (ok a) k c h p = p
  recovered (err e) k c h p = h.at c p

  pub Keeps-on_error :
      (k : Action S ⊤) (m : Action S A) → Keeps P k → Keeps P m → Keeps P (on_error k m)
  Keeps-on_error k m h h' = record { at = λ c p. recovered (m c).0 k (m c).1 h (h'.at c p) }

  pub Keeps-if :
      (b : Bool) (m n : Action S A) → Keeps P m → Keeps P n → Keeps P (if b then m else n)
  Keeps-if true m n h k = h
  Keeps-if false m n h k = k

module _ {S : Type 0} {P : S → Type 0} where
  pub Keeps-now : Keeps P now
  Keeps-now = record { at = λ c h. h }

  pub Keeps-random : Keeps P random
  Keeps-random = record { at = λ c h. h }

module _ {S A B : Type 0} {P : S → Type 0} where
  resume :
      (r : Result A) (f : A → Action S B) (c : Conn S)
      → ((a : A) → Keeps P (f a))
      → P c.tables
      → P (elim r as (λ _. Result B × Conn S) [ ok a ↦ f a c | err e ↦ (err e, c) ]).1.tables
  resume (ok a) f c k h = (k a).at c h
  resume (err e) f c k h = h

  pub Keeps-bind :
      (m : Action S A) (f : A → Action S B)
      → Keeps P m
      → ((a : A) → Keeps P (f a))
      → Keeps P (m >>= f)
  Keeps-bind m f h k = record { at = λ c p. resume (m c).0 f (m c).1 k (h.at c p) }

module _ {S A B : Type 0} {P : S → Type 0} where
  handled :
      (r : Result A) (g : Error → Action S B) (f : A → Action S B) (c : Conn S)
      → ((e : Error) → Keeps P (g e))
      → ((a : A) → Keeps P (f a))
      → P c.tables
      → P (elim r as (λ _. Result B × Conn S) [ ok a ↦ f a c | err e ↦ g e c ]).1.tables
  handled (ok a) g f c j k h = (k a).at c h
  handled (err e) g f c j k h = (j e).at c h

  pub Keeps-handling :
      (g : Error → Action S B) (m : Action S A) (f : A → Action S B)
      → ((e : Error) → Keeps P (g e))
      → Keeps P m
      → ((a : A) → Keeps P (f a))
      → Keeps P (handling g m f)
  Keeps-handling g m f j h k = record { at = λ c p. handled (m c).0 g f (m c).1 j k (h.at c p) }

module _ {S : Type 0} {P : S → Type 0} where
  pub Keeps-update : (f : S → S) → ((t : S) → P t → P (f t)) → Keeps P (update f)
  Keeps-update f k = Keeps-statement (λ t. (ok tt, f t)) k

  pub Keeps-put : (f : S → S) → ((t : S) → P t → P (f t)) → Keeps P (put f)
  Keeps-put f k = record { at = λ c h. k c.tables h }

module _ {S A : Type 0} {P : S → Type 0} where
  pub Keeps-query : (read : S → Result A) → Keeps P (query read)
  Keeps-query read = Keeps-statement (λ t. (read t, t)) (λ t h. h)

module _ {S A : Type 0} (P : S → Type 0) where
  settle :
      (r : Result A) (c : Conn S) (t : S)
      → P t
      → P c.tables
      → P
          (elim r as (λ _. Result A × Conn S) [
            | ok a ↦ (ok a, c)
            | err e ↦ (err e, record c { tables = t })
          ]).1.tables
  settle (ok a) c t h k = k
  settle (err e) c t h k = h

  Keeps-to_commit : (m : Action S A) → Keeps P m → Keeps P (to_commit m)
  Keeps-to_commit m k =
      Keeps-bind m (λ a. statement (λ t. (ok tt, t)) >> pure a) k
        λ a.
          Keeps-bind (statement (λ t. (ok tt, t))) (λ _. pure a)
            (Keeps-statement (λ t. (ok tt, t)) (λ t p. p)) (λ _. Keeps-pure a)

  pub Keeps-transaction : (m : Action S A) → Keeps P m → Keeps P (transaction m)
  Keeps-transaction m k =
      Keeps-bind (statement (λ t. (ok tt, t))) (λ _. or_rollback m)
        (Keeps-statement (λ t. (ok tt, t)) (λ t h. h))
        λ _. record {
          at = λ c h.
              settle (to_commit m c).0 (to_commit m c).1 c.tables h ((Keeps-to_commit m k).at c h);
        }

pub ruleset keeps_rules = (
  Keeps-wrapped, Keeps-otherwise, Keeps-pure, Keeps-raise, Keeps-ignore, Keeps-if, Keeps-now,
  Keeps-random, Keeps-bind, Keeps-query, Keeps-attempt, Keeps-on_error, Keeps-handling,
)
