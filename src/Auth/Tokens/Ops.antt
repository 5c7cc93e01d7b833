-- ===== src/Auth/Tokens/Ops.antt =====
-- The operations of the token manager. `users` is the lookup of a user that the caller of
-- `RotateTokens` passes, asked at some moment.
use first_golang.Prelude.{ℕ, suc, ◌+◌, ◌-◌, leb, String, Bool, false, str_eq, not, if◌then◌else◌}
use first_golang.Sql.Exec.{
  Action, Result, ok, err, message, ⊤, ◌>>=◌, ◌>>◌, now, random, pure, raise, ignore, wrapped,
  otherwise,
}
use first_golang.Auth.Tokens.Sessions.{
  Tables, SessionView, create_refresh_session, get_session_by_jti, rotate_session,
  revoke_all_user_sessions, revoke_session_by_jti, add_to_blacklist, is_blacklisted,
}
use first_golang.Auth.Tokens.Manager.{
  RefreshTokenManager, Jwt, RefreshClaims, registered_claims, set_cookie, clear_cookies,
  AccessClaims,
}

abbrev pub lift : {A : Type 0} → Result A → Action Tables A
lift r c = (r, c)

abbrev pub ask : {A : Type 0} → (ℕ → Result A) → Action Tables A
ask f c = (f c.tick, record c { tick = suc c.tick })

-- What `RotateTokens` returns.
pub record Rotation : Type 0 where
  pub access_token : String
  pub refresh_token : String
  pub expires_in : ℕ
  pub username : String
  pub role : String

module _ (j : Jwt) (m : RefreshTokenManager) where
  unfoldable pub issue_token_pair :
      String
      → String
      → String
      → String
      → String
      → String
      → String
      → Action Tables (String × String × ℕ)
  unfolding create_refresh_session set_cookie
  issue_token_pair user_id username role client_id scope ip ua = do
    at ← now
    access_jti ← random
    refresh_jti ← random
    session_id ← random
    access ← wrapped "sign access token" (
        lift (
          j.sign_access (record {
            user_id = user_id;
            username = username;
            role = role;
            scope = scope;
            azp = client_id;
            registered = registered_claims m user_id client_id at m.access_ttl access_jti;
          })))
    refresh ← wrapped "sign refresh token" (
        lift (
          j.sign_refresh (record {
            user_id = user_id;
            session_id = session_id;
            azp = client_id;
            registered = registered_claims m user_id client_id at m.refresh_ttl refresh_jti;
          })))
    (if m.sessions
        then wrapped "persist refresh session" (
            create_refresh_session session_id user_id client_id refresh_jti scope ip ua
              (at + m.refresh_ttl))
        else pure tt)
    set_cookie m "fs_access_token" access m.access_ttl
    set_cookie m "fs_refresh_token" refresh m.refresh_ttl
    pure (access, refresh, m.access_ttl)

  -- `ParseRefreshToken`
  unfoldable pub parse_refresh_token : String → Action Tables RefreshClaims
  parse_refresh_token token = do
    claims ← lift (j.decode_refresh token)
    at ← now
    lift (j.validate at claims)
    pure claims

  -- `ParseAccessToken`: an error of the blacklist counts as not listed.
  unfoldable pub parse_access_token : String → Action Tables AccessClaims
  unfolding is_blacklisted
  parse_access_token token = do
    claims ← lift (j.decode_access token)
    at ← now
    lift (j.validate_access at claims)
    listed ←
        (if m.blacklist then otherwise false (is_blacklisted claims.registered.id) else pure false)
    if listed then raise (message "access token revoked") else pure claims

  -- Step 3 of `RotateTokens`: the scope of the session of the old token.
  abbrev pub accept_session : RefreshClaims → SessionView → Action Tables String
  accept_session old s =
      if s.is_revoked
      then raise (message "refresh session revoked")
      else if not (str_eq s.user_id old.user_id)
      then raise (message "refresh session user mismatch")
      else pure s.scope

  unfoldable pub check_session : RefreshClaims → Action Tables String
  unfolding get_session_by_jti
  check_session old =
      if m.sessions
      then wrapped "refresh session not found" (get_session_by_jti old.registered.id)
        >>= accept_session old
      else pure ""

  -- Step 2: an error of the blacklist counts as not listed.
  unfoldable pub check_blacklist : RefreshClaims → Action Tables Bool
  unfolding is_blacklisted
  check_blacklist old =
      if m.blacklist then otherwise false (is_blacklisted old.registered.id) else pure false

  -- Step 7: the old id is blacklisted for what remains of its time, or for an hour.
  unfoldable pub ban_rotated : RefreshClaims → Action Tables ⊤
  unfolding add_to_blacklist
  ban_rotated old =
      if m.blacklist
      then (do
        at ← now
        ignore (
            add_to_blacklist old.registered.id
              (if leb old.registered.expires_at at then 3600 else old.registered.expires_at - at)))
      else pure tt

  -- Steps 5 to 8: the new pair, after the checks.
  unfoldable pub renew : RefreshClaims → String → String → String → String → Action Tables Rotation
  unfolding rotate_session ban_rotated set_cookie
  renew old client_id scope username role = do
    at ← now
    access_jti ← random
    refresh_jti ← random
    session_id ← random
    access ← wrapped "sign new access" (
        lift (
          j.sign_access (record {
            user_id = old.user_id;
            username = username;
            role = role;
            scope = scope;
            azp = client_id;
            registered = registered_claims m old.user_id client_id at m.access_ttl access_jti;
          })))
    refresh ← wrapped "sign new refresh" (
        lift (
          j.sign_refresh (record {
            user_id = old.user_id;
            session_id = session_id;
            azp = client_id;
            registered = registered_claims m old.user_id client_id at m.refresh_ttl refresh_jti;
          })))
    (if m.sessions
        then wrapped "rotate session"
            (rotate_session old.registered.id session_id refresh_jti (at + m.refresh_ttl))
        else pure tt)
    ban_rotated old
    set_cookie m "fs_access_token" access m.access_ttl
    set_cookie m "fs_refresh_token" refresh m.refresh_ttl
    pure (record {
      access_token = access;
      refresh_token = refresh;
      expires_in = m.access_ttl;
      username = username;
      role = role;
    })

  -- Steps 3 to 8, for a token whose id is not on the blacklist.
  unfoldable pub rotate_unlisted :
      (ℕ → String → Result (String × String)) → RefreshClaims → String → Action Tables Rotation
  unfolding check_session renew
  rotate_unlisted users old client_id = do
    scope ← check_session old
    user ← wrapped "user lookup failed" (ask (λ n. users n old.user_id))
    renew old client_id scope user.0 user.1

  abbrev pub unless_listed :
      (ℕ → String → Result (String × String))
      → RefreshClaims
      → String
      → Bool
      → Action Tables Rotation
  unless_listed users old client_id listed =
      if listed
      then raise (message "refresh token revoked (reuse detected)")
      else rotate_unlisted users old client_id

  -- Steps 2 to 8, after the token is parsed.
  abbrev pub rotate_parsed :
      (ℕ → String → Result (String × String)) → String → RefreshClaims → Action Tables Rotation
  rotate_parsed users client_id old = do
    listed ← check_blacklist old
    unless_listed users old client_id listed

  unfoldable pub rotate_tokens :
      (ℕ → String → Result (String × String)) → String → String → Action Tables Rotation
  unfolding parse_refresh_token check_blacklist rotate_unlisted
  rotate_tokens users token client_id =
      if str_eq token "" then raise (message "empty refresh token") else (do
        old ← wrapped "invalid refresh token" (parse_refresh_token token)
        rotate_parsed users client_id old)

  abbrev pub revoke_parsed : Result RefreshClaims → Action Tables ⊤
  revoke_parsed (err e) = pure tt
  revoke_parsed (ok claims) = do
    (if m.sessions then ignore (revoke_session_by_jti claims.registered.id) else pure tt)
    (if m.blacklist
        then (do
          at ← now
          (if leb claims.registered.expires_at at
              then pure tt
              else ignore
                  (add_to_blacklist claims.registered.id (claims.registered.expires_at - at))))
        else pure tt)

  -- The token parsed, its error kept as a value.
  abbrev pub try_parse : String → Action Tables (Result RefreshClaims)
  try_parse token c = let (r, c') = parse_refresh_token token c in (ok r, c')

  unfoldable pub revoke_refresh_token : String → Action Tables ⊤
  unfolding parse_refresh_token revoke_session_by_jti add_to_blacklist clear_cookies
  revoke_refresh_token token =
      if str_eq token ""
      then clear_cookies m
      else try_parse token >>= revoke_parsed >> clear_cookies m

  unfoldable pub revoke_all_user_tokens : String → Action Tables ⊤
  unfolding revoke_all_user_sessions
  revoke_all_user_tokens user_id =
      if m.sessions
      then revoke_all_user_sessions user_id
      else raise (message "session store not configured")
