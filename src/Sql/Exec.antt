-- ===== src/Sql/Exec.antt =====
-- Statements against a database. Each statement draws a number, `tick`, at which the environment
-- says whether the driver fails; a failing statement has no effect. `now` and the random part of a
-- document number are drawn in the same way.
use first_golang.Prelude.{ℕ, suc, String, Option, none, some, Bool, true, false, ◌≡◌, arith}

-- The `error` values that the store returns.
pub data Error : Type 0 where
  no_rows driver unique denied role_not_found : Error
  message : String → Error  -- `errors.New`
  wrap : String → Error → Error  -- `fmt.Errorf` with `%w`

pub data Result (A : Type 0) : Type 0 where
  ok : A → Result A
  err : Error → Result A

abbrev pub ⊤ : Type 0
⊤ = Unit

pub record Conn (S : Type 0) : Type 0 where
  pub tables : S
  pub tick : ℕ
  pub fails : ℕ → Bool
  pub clock : ℕ → ℕ
  pub nonce : ℕ → String

abbrev pub Action : Type 0 → Type 0 → Type 0
Action S A = Conn S → Result A × Conn S

infixl 5 ◌>>=◌ ◌>>◌
abbrev pub ◌>>=◌ : {S A B : Type 0} → Action S A → (A → Action S B) → Action S B
◌>>=◌ m f c = let (r, c') = m c in elim r [ ok a ↦ f a c' | err e ↦ (err e, c') ]

abbrev pub ◌>>◌ : {S B : Type 0} → Action S ⊤ → Action S B → Action S B
m >> k = m >>= λ _. k

-- `if err != nil { … }`: the first function handles an error and the second one the value.
abbrev pub handling :
    {S A B : Type 0} → (Error → Action S B) → Action S A → (A → Action S B) → Action S B
handling g m f c = let (r, c') = m c in elim r [ ok a ↦ f a c' | err e ↦ g e c' ]

module _ {S A : Type 0} where
  abbrev pub pure : A → Action S A
  pure a c = (ok a, c)

  abbrev pub raise : Error → Action S A
  raise e c = (err e, c)

  -- `Exec`, or `QueryRow` with its `Scan`, of one statement.
  abbrev pub statement : (S → Result A × S) → Action S A
  statement body c =
      let d = record c { tick = suc c.tick } in
      elim (c.fails c.tick) [
        | true ↦ (err driver, d)
        | false ↦ let (r, t) = body c.tables in (r, record d { tables = t })
      ]

  abbrev pub query : (S → Result A) → Action S A
  query read = statement (λ t. (read t, t))

  -- The error is returned behind a text.
  abbrev pub wrapped : String → Action S A → Action S A
  wrapped text m c = let (r, c') = m c in (elim r [ ok a ↦ ok a | err e ↦ err (wrap text e) ], c')

  -- An error counts as the value.
  abbrev pub otherwise : A → Action S A → Action S A
  otherwise a m c = let (r, c') = m c in (elim r [ ok x ↦ ok x | err e ↦ ok a ], c')

  -- The error is a value that the caller looks at.
  abbrev pub attempt : Action S A → Action S (Result A)
  attempt m c = let (r, c') = m c in (ok r, c')

  -- After an error, a second action whose outcome does not count.
  abbrev pub on_error : Action S ⊤ → Action S A → Action S A
  on_error k m c = let (r, c') = m c in elim r [ ok a ↦ (ok a, c') | err e ↦ (err e, (k c').1) ]

  -- `_ = e`: the error is dropped.
  abbrev pub ignore : Action S A → Action S ⊤
  ignore m c = (ok tt, (m c).1)

module _ {S : Type 0} where
  abbrev pub update : (S → S) → Action S ⊤
  update f = statement (λ t. (ok tt, f t))

  -- A change outside the database, such as a header of the response.
  abbrev pub put : (S → S) → Action S ⊤
  put f c = (ok tt, record c { tables = f c.tables })

  -- `now()`
  abbrev pub now : Action S ℕ
  now c = (ok (c.clock c.tick), record c { tick = suc c.tick })

  -- The time and the random bytes in `genNo`.
  abbrev pub random : Action S String
  random c = (ok (c.nonce c.tick), record c { tick = suc c.tick })

module _ {S A : Type 0} where
  -- The statements of a transaction, up to its commit.
  abbrev pub to_commit : Action S A → Action S A
  to_commit m = do a ← m; statement (λ t. (ok tt, t)) >> pure a

  -- Without a commit, the tables are those at the beginning.
  abbrev pub or_rollback : Action S A → Action S A
  or_rollback m c =
      let (r, c') = to_commit m c in
      elim r [ ok a ↦ (ok a, c') | err e ↦ (err e, record c' { tables = c.tables }) ]

  -- A transaction: its statements take effect together, when the commit returns.
  abbrev pub transaction : Action S A → Action S A
  transaction m = statement (λ t. (ok tt, t)) >> or_rollback m

-- `Scan` of a single row: `sql.ErrNoRows` where there is none.
abbrev pub scan : {A : Type 0} → Option A → Result A
scan none = err no_rows
scan (some a) = ok a

abbrev pub never : ℕ → Bool
never _ = false

-- A connection whose driver never fails.
abbrev pub calm : {S : Type 0} → Conn S → Conn S
calm c = record c { fails = never }

-- A query that returns has read the tables as they stand.
pub query-reads :
    {S A : Type 0} (f : S → A) (c : Conn S) (a : A)
    → (query (λ t. ok (f t)) c).0 ≡ ok a
    → f c.tables ≡ a
query-reads f c a h = ground arith

pub ok_inj : {A : Type 0} {a b : A} → ok a ≡ ok b → a ≡ b
ok_inj h = cc

pub scan_inj : {A : Type 0} (o : Option A) (a : A) → scan o ≡ ok a → o ≡ some a
scan_inj none a h = absurd (cc)
scan_inj (some x) a h = cc
