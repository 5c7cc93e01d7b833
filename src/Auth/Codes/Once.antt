-- ===== src/Auth/Codes/Once.antt =====
-- An authorization code is exchanged at most once.
use first_golang.Prelude.{
  ℕ, ◌<◌, ◌≡◌, ◌≢◌, refl, sym, subst, String, some, Bool, true, false, List, [], ◌∷◌, ◌&&◌, not,
  ◌==◌, ltb, str_eq, str_eq_iff, Bool-cases, inl, inr, Option, none, any, count_if, arith,
}
use first_golang.Sql.Rows.{first_where, update_where, first_where_sound, count_if-zero}
use first_golang.Sql.Exec.{Conn, Result, ok, err, now}
use first_golang.Sql.Keeps.{Keeps, Keeps-statement, keeps_rules}
use first_golang.Sql.Leads.{
  Leads, Returns, Leads-statement, Leads-bind, Leads-either, Leads-if, Leads-pure, Leads-raise,
  Leads-query,
}
use first_golang.Auth.Codes.{
  AuthCode, has_code, is_unused, marked_used, insert_code, save_auth_code, found_code, claim,
  claimed, claim_at, claim_found, get_and_mark_used, check_code, verify_pkce, validate_auth_code,
}

-- The code is there and used.
abbrev IsSpent : String → List AuthCode → Type 0
IsSpent code t = (0 < count_if (has_code code) t) × (count_if (is_unused code) t ≡ 0)

none_unused :
    (code : String) (t : List AuthCode)
    → count_if (is_unused code) (update_where (is_unused code) marked_used t) ≡ 0
none_unused code [] = refl
none_unused code (x ∷ t) = ground (arith, none_unused code t)

still_used :
    (code other : String) (t : List AuthCode)
    → count_if (is_unused code) t ≡ 0
    → count_if (is_unused code) (update_where (is_unused other) marked_used t) ≡ 0
still_used code other [] h = refl
still_used code other (x ∷ t) h = ground (arith, still_used code other t)

still_there :
    (code other : String) (t : List AuthCode)
    → count_if (has_code code) (update_where (is_unused other) marked_used t)
      ≡ count_if (has_code code) t
still_there code other [] = refl
still_there code other (x ∷ t) = ground (arith, still_there code other t)

unused_there :
    (code : String) (t : List AuthCode)
    → 0 < count_if (is_unused code) t
    → 0 < count_if (has_code code) t
unused_there code [] h = h
unused_there code (x ∷ t) h = ground (arith, unused_there code t)

found_some : (o : Option AuthCode) (x : AuthCode) → found_code o ≡ ok x → o ≡ some x
found_some none x e = absurd (cc)
found_some (some y) x e = cc

found_used :
    (code client : String) (t : List AuthCode) (x : AuthCode)
    → count_if (is_unused code) t ≡ 0
    → found_code (first_where (λ y. str_eq y.code code && str_eq y.client_id client) t) ≡ ok x
    → x.used ≡ true
found_used code client t x h e =
    let f : AuthCode → Bool = λ y. str_eq y.code code && str_eq y.client_id client in
    let (b, m) = first_where_sound f x t (found_some (first_where f t) x e) in
    let k = count_if-zero (is_unused code) x t h m in ground (arith, b, k)

none_there :
    (code : String) (t : List AuthCode)
    → any (has_code code) t ≡ false
    → count_if (has_code code) t ≡ 0
none_there code [] h = refl
none_there code (x ∷ t) h = ground (arith, h, none_there code t)

another :
    (k code : String) (t : List AuthCode)
    → any (has_code k) t ≡ false
    → 0 < count_if (has_code code) t
    → str_eq k code ≡ false
another k code t h n = elim (Bool-cases (str_eq k code)) [
  | inl b ↦
      let e : k ≡ code = (str_eq_iff k code).0 b in
      absurd (omega (arith, none_there code t (subst (λ z. any (has_code z) t ≡ false) e h), n))
  | inr b ↦ b
]

inserted :
    (code : String) (x : AuthCode) (b : Bool) (t : List AuthCode)
    → any (has_code x.code) t ≡ b
    → IsSpent code t
    → IsSpent code (insert_code b (record x { used = false }) t).1
inserted code x true t e h = h
inserted code x false t e (m, n) = ground (arith, another x.code code t e m, m, n)

module _ (code : String) where
  save_auth_code-Keeps : (x : AuthCode) → Keeps (IsSpent code) (save_auth_code x)
  unfolding save_auth_code
  save_auth_code-Keeps x =
      Keeps-statement (λ t. insert_code (any (has_code x.code) t) (record x { used = false }) t)
        (λ t h. inserted code x (any (has_code x.code) t) t refl h)

  claim-Keeps : (other : String) → Keeps (IsSpent code) (claim other)
  claim-Keeps other =
      Keeps-statement
        (λ t. (ok (count_if (is_unused other) t), update_where (is_unused other) marked_used t))
        (λ t h.
          (subst (λ z. 0 < z) (sym (still_there code other t)) h.0, still_used code other t h.1))

  get_and_mark_used-Keeps :
      (other client : String) → Keeps (IsSpent code) (get_and_mark_used other client)
  unfolding get_and_mark_used
  get_and_mark_used-Keeps other client = search (keeps_rules, claim-Keeps) depth 12

  module _ (s256 : String → String) where
    validate_auth_code-Keeps :
        (other client redirect verifier : String)
        → Keeps (IsSpent code) (validate_auth_code s256 other client redirect verifier)
    unfolding validate_auth_code
    validate_auth_code-Keeps other client redirect verifier =
        search (keeps_rules, get_and_mark_used-Keeps) depth 12

    -- What a claim of the code leaves.
    abbrev Claimed : Result ℕ → List AuthCode → Type 0
    Claimed (ok n) t = 0 < n → IsSpent code t
    Claimed (err e) t = Unit

    claim-Leads : Leads (λ t. Unit) Claimed (claim code)
    claim-Leads =
        Leads-statement
          (λ t. (ok (count_if (is_unused code) t), update_where (is_unused code) marked_used t))
          (λ t _ n. (
            subst (λ z. 0 < z) (sym (still_there code code t)) (unused_there code t n),
            none_unused code t,
          ))
          (λ t _. tt)

    abbrev Spends : {A : Type 0} → Result A → List AuthCode → Type 0
    Spends = Returns (λ _ t. IsSpent code t)

    claimed-Leads :
        (x : AuthCode) (n : ℕ) → Leads (λ t. 0 < n → IsSpent code t) Spends (claimed x n)
    claimed-Leads x n =
        Leads-if (n == 0) _ _ (λ _. Leads-raise _ (λ t h. tt))
          (λ e. Leads-pure x (λ t h. h (ground (arith, e))))

    claim_at-Leads : (x : AuthCode) (now_at : ℕ) → Leads (λ t. Unit) Spends (claim_at code x now_at)
    claim_at-Leads x now_at =
        Leads-either (ltb x.expires_at now_at) _ _ (Leads-raise _ (λ t h. tt))
          (Leads-bind (claim code) (claimed x) claim-Leads (claimed-Leads x) (λ e t h. tt))

    get_and_mark_used-Leads :
        (client : String) → Leads (λ t. Unit) Spends (get_and_mark_used code client)
    unfolding get_and_mark_used
    get_and_mark_used-Leads client =
        Leads-query
          (λ t. found_code (first_where (λ y. str_eq y.code code && str_eq y.client_id client) t))
          (claim_found code)
          λ x. Leads-either x.used _ _ (Leads-raise _ (λ t h. tt)) (
            Leads-bind {M = λ r t. Unit} now (claim_at code x) (record { at = λ c h. tt })
              (claim_at-Leads x) (λ e t h. tt))

    validate_auth_code-Leads :
        (client redirect verifier : String)
        → Leads (λ t. Unit) Spends (validate_auth_code s256 code client redirect verifier)
    unfolding validate_auth_code
    validate_auth_code-Leads client redirect verifier =
        Leads-bind {M = Spends} (get_and_mark_used code client) (check_code s256 redirect verifier)
          (get_and_mark_used-Leads client)
          (λ x.
            Leads-either (not (str_eq x.redirect_uri redirect)) _ _ (Leads-raise _ (λ t h. tt)) (
              Leads-either
                (not (verify_pkce s256 x.code_challenge x.code_challenge_method verifier)) _ _
                (Leads-raise _ (λ t h. tt)) (Leads-pure (x.user_id, x.scope, x.state) (λ t h. h))))
          (λ e t h. tt)

    -- With a code that is used nothing is returned.
    abbrev Never : {A : Type 0} → Result A → List AuthCode → Type 0
    Never = Returns (λ _ t. ⊥)

    get_and_mark_used-Never :
        (client : String) → Leads (IsSpent code) Never (get_and_mark_used code client)
    unfolding get_and_mark_used
    get_and_mark_used-Never client =
        Leads-query
          (λ t. found_code (first_where (λ y. str_eq y.code code && str_eq y.client_id client) t))
          (claim_found code)
          λ x.
            Leads-if x.used _ _ (λ e. Leads-raise _ (λ t h. tt))
              λ e. record {
                at = λ c h. let k = found_used code client c.tables x h.0.1 h.1 in absurd (cc);
              }

    validate_auth_code-Never :
        (client redirect verifier : String)
        → Leads (IsSpent code) Never (validate_auth_code s256 code client redirect verifier)
    unfolding validate_auth_code
    validate_auth_code-Never client redirect verifier =
        Leads-bind {M = Never} (get_and_mark_used code client) (check_code s256 redirect verifier)
          (get_and_mark_used-Never client) (λ x. record { at = λ c h. absurd h }) (λ e t h. tt)

-- One request that changes the table.
pub data Step (s256 : String → String) (c : Conn (List AuthCode))
    : Conn (List AuthCode) → Type 0 where
  saves : (x : AuthCode) → Step s256 c (save_auth_code x c).1
  exchanges :
      (code client redirect verifier : String)
      → Step s256 c (validate_auth_code s256 code client redirect verifier c).1

-- The tables after any number of requests. Between them the clock moves and the driver may fail in
-- another way.
pub data Later (s256 : String → String) (t : List AuthCode) : List AuthCode → Type 0 where
  start : Later s256 t t
  after :
      {c d : Conn (List AuthCode)} → Later s256 t c.tables → Step s256 c d → Later s256 t d.tables

module _ (s256 : String → String) (code : String) where
  Step-IsSpent :
      {c d : Conn (List AuthCode)} → Step s256 c d → IsSpent code c.tables → IsSpent code d.tables
  Step-IsSpent {c} (saves x) h = (save_auth_code-Keeps code x).at c h
  Step-IsSpent {c} (exchanges other client redirect verifier) h =
      (validate_auth_code-Keeps code s256 other client redirect verifier).at c h

  Later-IsSpent : (t u : List AuthCode) → IsSpent code t → Later s256 t u → IsSpent code u
  Later-IsSpent t _ h start = h
  Later-IsSpent t _ h (after l m) = Step-IsSpent m (Later-IsSpent t _ h l)

-- Once an authorization code has been exchanged, it is never exchanged again: not by any client, nor
-- with any callback or verifier, after any requests that save or exchange codes, however the driver
-- behaves.
pub exchanged_once :
    (s256 : String → String) (code client redirect verifier : String) (u : String × String × String)
    → (c d : Conn (List AuthCode))
    → (validate_auth_code s256 code client redirect verifier c).0 ≡ ok u
    → Later s256 (validate_auth_code s256 code client redirect verifier c).1.tables d.tables
    → (client' redirect' verifier' : String) (v : String × String × String)
    → (validate_auth_code s256 code client' redirect' verifier' d).0 ≢ ok v
exchanged_once s256 code client redirect verifier u c d r l client' redirect' verifier' v e =
    let after_first = (validate_auth_code s256 code client redirect verifier c).1.tables in
    let spent : IsSpent code after_first =
      subst (λ z. Spends code s256 z after_first) r
        ((validate_auth_code-Leads code s256 client redirect verifier).at c tt) in
    subst
      (λ z. Never code s256 z (validate_auth_code s256 code client' redirect' verifier' d).1.tables)
      e
      ((validate_auth_code-Never code s256 client' redirect' verifier').at d
        (Later-IsSpent s256 code after_first d.tables spent l))
