-- ===== src/Sql/Steady.antt =====
-- No action mends or breaks the driver: one rule for each way to build an action.
use first_golang.Prelude.{◌≡◌, refl, Bool, true, false, if◌then◌else◌, arith, ◌∙◌}
use first_golang.Sql.Exec.{
  Conn, Result, ok, err, Action, ◌>>=◌, pure, statement, ignore, now, random,
}

pub record IsSteady {S A : Type 0} (m : Action S A) : Type 0 where
  pub at : (c : Conn S) → (m c).1.fails ≡ c.fails

module _ {S A : Type 0} where
  pub pure-IsSteady : (a : A) → IsSteady (pure {S = S} a)
  pure-IsSteady a = record { at = λ c. refl }

  pub statement-IsSteady : (body : S → Result A × S) → IsSteady (statement body)
  statement-IsSteady body = record { at = λ c. ground arith }

  pub ignore-IsSteady : (m : Action S A) → IsSteady m → IsSteady (ignore m)
  ignore-IsSteady m h = record { at = λ c. h.at c }

  pub if-IsSteady :
      (b : Bool) (m n : Action S A) → IsSteady m → IsSteady n → IsSteady (if b then m else n)
  if-IsSteady true m n h k = h
  if-IsSteady false m n h k = k

module _ {S : Type 0} where
  pub now-IsSteady : IsSteady (now {S = S})
  now-IsSteady = record { at = λ c. refl }

  pub random-IsSteady : IsSteady (random {S = S})
  random-IsSteady = record { at = λ c. refl }

module _ {S A B : Type 0} where
  resume :
      (r : Result A) (f : A → Action S B) (c : Conn S)
      → ((a : A) → IsSteady (f a))
      → (elim r as (λ _. Result B × Conn S) [ ok a ↦ f a c | err e ↦ (err e, c) ]).1.fails ≡ c.fails
  resume (ok a) f c k = (k a).at c
  resume (err e) f c k = refl

  pub bind-IsSteady :
      (m : Action S A) (f : A → Action S B)
      → IsSteady m
      → ((a : A) → IsSteady (f a))
      → IsSteady (m >>= f)
  bind-IsSteady m f h k = record { at = λ c. resume (m c).0 f (m c).1 k ∙ h.at c }

pub ruleset steady_rules = (
  pure-IsSteady, statement-IsSteady, ignore-IsSteady, if-IsSteady, now-IsSteady, random-IsSteady,
  bind-IsSteady,
)
