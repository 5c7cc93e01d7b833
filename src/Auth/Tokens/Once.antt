-- ===== src/Auth/Tokens/Once.antt =====
-- The rotation of a refresh token, and a second one of the same token after further calls.
use first_golang.Prelude.{
  ℕ, ◌≡◌, ◌≢◌, String, none, List, true, arith, str_eq, Option-cases, inl, inr,
}
use first_golang.Sql.Exec.{Conn, Result, ok, wrapped}
use first_golang.Sql.Keeps.{Keeps-wrapped, keeps_rules}
use first_golang.Sql.Ensures.{
  Ensures, Ensures-raise, Ensures-if, Ensures-wrapped, Ensures-then, Ensures-first, Ensures-known,
  Ensures-if_true, Ensures-transaction,
}
use first_golang.Sql.Refuses.{Refuses, Refuses-raise, Refuses-if, Refuses-first, Refuses-then}
use first_golang.Auth.Tokens.Sessions.{
  RefreshSession, Tables, find_session, mark_revoked, has_jti, rotate_statements, rotate_session,
  get_session_by_jti,
}
use first_golang.Auth.Tokens.Manager.{RefreshTokenManager, Jwt, RefreshClaims}
use first_golang.Auth.Tokens.Ops.{
  Rotation, parse_refresh_token, check_session, check_blacklist, renew, rotate_unlisted,
  unless_listed, rotate_parsed, rotate_tokens,
}
use first_golang.Auth.Tokens.Dead.{Dead, set_cookie-Dead, dead_marked, dead-append}
use first_golang.Auth.Tokens.Stays.{ban-Dead, parse-Dead, Op, run, run-Dead, check_blacklist-Dead}

-- A rotation that reaches its commit has revoked the session of the old id.
statements_kill :
    (old session_id new : String) (expires_at : ℕ)
    → Ensures (Dead old) (rotate_statements old session_id new expires_at)
statements_kill old session_id new expires_at = record {
  at = λ c a h.
      let at = c.clock c.tick in
      let ss = mark_revoked (has_jti old) at c.tables.sessions in
      elim (Option-cases (find_session old ss)) [
        | inl e ↦ absurd (unfold rotate_statements in ground arith)
        | inr (s, e) ↦
            let row : RefreshSession = record s {
              session_id = session_id;
              jti = new;
              expires_at = expires_at;
              revoked_at = none;
              created_at = at;
            } in
            unfold rotate_statements in
            ground (arith, dead_marked old at s c.tables.sessions e, dead-append old row ss)
      ];
}

rotate_session_kills :
    (old session_id new : String) (expires_at : ℕ)
    → Ensures (Dead old) (rotate_session old session_id new expires_at)
unfolding rotate_session
rotate_session_kills old session_id new expires_at =
    Ensures-transaction (Dead old) (rotate_statements old session_id new expires_at)
      (statements_kill old session_id new expires_at)

module _ (j : Jwt) (m : RefreshTokenManager) where
  -- No rotation passes the check of a revoked session.
  check_session_refuses :
      (old : RefreshClaims) (c : Conn Tables) (scope : String)
      → m.sessions ≡ true
      → Dead old.registered.id c.tables
      → (check_session j m old c).0 ≢ ok scope
  unfolding check_session get_session_by_jti
  check_session_refuses old c scope s d h =
      elim (Option-cases (find_session old.registered.id c.tables.sessions)) [
        | inl e ↦ ground arith
        | inr (x, e) ↦ ground arith
      ]

  check_session-Refuses :
      (old : RefreshClaims)
      → m.sessions ≡ true
      → Refuses (Dead old.registered.id) (check_session j m old)
  check_session-Refuses old s = record { at = λ c scope d. check_session_refuses old c scope s d }

  unlisted-Refuses :
      (users : ℕ → String → Result (String × String)) (old : RefreshClaims) (client_id : String)
      → m.sessions ≡ true
      → Refuses (Dead old.registered.id) (rotate_unlisted j m users old client_id)
  unfolding rotate_unlisted
  unlisted-Refuses users old client_id s = search (Refuses-first, check_session-Refuses)

  pub parsed :
      (token : String) (claims a : RefreshClaims) (c : Conn Tables)
      → j.decode_refresh token ≡ ok claims
      → (wrapped "invalid refresh token" (parse_refresh_token j m token) c).0 ≡ ok a
      → claims ≡ a
  unfolding parse_refresh_token
  parsed token claims a c e h = ground arith

  renew_kills :
      (old : RefreshClaims) (client_id scope username role : String)
      → m.sessions ≡ true
      → Ensures (Dead old.registered.id) (renew j m old client_id scope username role)
  unfolding renew
  renew_kills old client_id scope username role s =
      search
        (
          Ensures-then, Ensures-first, Ensures-if_true, Ensures-wrapped, rotate_session_kills,
          keeps_rules, ban-Dead, set_cookie-Dead,
        )
        depth 24

  unlisted_kills :
      (users : ℕ → String → Result (String × String)) (old : RefreshClaims) (client_id : String)
      → m.sessions ≡ true
      → Ensures (Dead old.registered.id) (rotate_unlisted j m users old client_id)
  unfolding rotate_unlisted
  unlisted_kills users old client_id s = search (Ensures-then, renew_kills) depth 12

  rotate_kills :
      (users : ℕ → String → Result (String × String)) (token client_id : String)
      (claims : RefreshClaims)
      → m.sessions ≡ true
      → j.decode_refresh token ≡ ok claims
      → Ensures (Dead claims.registered.id) (rotate_tokens j m users token client_id)
  unfolding rotate_tokens
  rotate_kills users token client_id claims s e =
      Ensures-if (str_eq token "") _ _ (Ensures-raise _) (
        Ensures-known (wrapped "invalid refresh token" (parse_refresh_token j m token))
          (rotate_parsed j m users client_id)
          λ old c h. rw (← parsed token claims old c e h) (
            Ensures-then (check_blacklist j m claims) (unless_listed j m users claims client_id)
              λ listed.
                Ensures-if listed _ _ (Ensures-raise _) (unlisted_kills users claims client_id s)))

  pub rotate-Refuses :
      (users : ℕ → String → Result (String × String)) (token client_id : String)
      (claims : RefreshClaims)
      → m.sessions ≡ true
      → j.decode_refresh token ≡ ok claims
      → Refuses (Dead claims.registered.id) (rotate_tokens j m users token client_id)
  unfolding rotate_tokens
  rotate-Refuses users token client_id claims s e =
      Refuses-if (str_eq token "") _ _ (Refuses-raise _) (
        Refuses-then (wrapped "invalid refresh token" (parse_refresh_token j m token))
          (rotate_parsed j m users client_id)
          (Keeps-wrapped _ _ (parse-Dead j m claims.registered.id token))
          λ old c h. rw (← parsed token claims old c e h) (
            Refuses-then (check_blacklist j m claims) (unless_listed j m users claims client_id)
              (check_blacklist-Dead j m claims.registered.id claims)
              λ listed _ _.
                Refuses-if listed _ _ (Refuses-raise _)
                  (unlisted-Refuses users claims client_id s)))

-- A refresh token that was rotated once is never rotated again, whatever the driver does: not after
-- any further calls of the manager, for no client and whatever the user lookup answers, as long as
-- the manager has its session store.
pub rotate_once :
    (j : Jwt) (m : RefreshTokenManager) (users users' : ℕ → String → Result (String × String))
    (token client_id client_id' : String) (claims : RefreshClaims) (ops : List Op) (c : Conn Tables)
    (r r' : Rotation)
    → m.sessions ≡ true
    → j.decode_refresh token ≡ ok claims
    → (rotate_tokens j m users token client_id c).0 ≡ ok r
    → (rotate_tokens j m users' token client_id'
        (run j m ops (rotate_tokens j m users token client_id c).1)).0
      ≢ ok r'
rotate_once j m users users' token client_id client_id' claims ops c r r' s e h =
    let d = (rotate_tokens j m users token client_id c).1 in
    (rotate-Refuses j m users' token client_id' claims s e).at (run j m ops d) r' (
      run-Dead j m claims.registered.id ops d
        ((rotate_kills j m users token client_id claims s e).at c r h))
