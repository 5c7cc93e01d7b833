-- ===== src/Auth/Tokens/Stays.antt =====
-- The calls of the manager, one after another, and the sessions that are revoked before them.
use first_golang.Prelude.{ℕ, String, List, [], ◌∷◌}
use first_golang.Sql.Exec.{Conn, Result, ok, err, Action, ⊤, ignore}
use first_golang.Sql.Keeps.{Keeps, Keeps-ignore, Keeps-pure, keeps_rules}
use first_golang.Auth.Tokens.Sessions.{Tables, SessionView}
use first_golang.Auth.Tokens.Manager.{RefreshTokenManager, Jwt, RefreshClaims}
use first_golang.Auth.Tokens.Ops.{
  issue_token_pair, parse_refresh_token, accept_session, check_session, check_blacklist,
  ban_rotated, renew, rotate_unlisted, rotate_tokens, revoke_parsed, revoke_refresh_token,
  revoke_all_user_tokens, try_parse,
}
use first_golang.Auth.Tokens.Dead.{
  Dead, lift-Dead, ask-Dead, rotate_session-Dead, create-Dead, add-Dead, revoke_all-Dead,
  revoke_one-Dead, get-Dead, set_cookie-Dead, clear_cookies-Dead, is_blacklisted-Dead,
}

module _ (j : Jwt) (m : RefreshTokenManager) (jti : String) where
  pub parse-Dead : (token : String) → Keeps (Dead jti) (parse_refresh_token j m token)
  unfolding parse_refresh_token
  parse-Dead token = search (keeps_rules, lift-Dead) depth 12

  pub issue-Dead :
      (user_id username role client_id scope ip ua : String)
      → Keeps (Dead jti) (issue_token_pair j m user_id username role client_id scope ip ua)
  unfolding issue_token_pair
  issue-Dead user_id username role client_id scope ip ua =
      search (keeps_rules, lift-Dead, create-Dead, set_cookie-Dead) depth 24

  accept-Dead :
      (old : RefreshClaims) (s : SessionView) → Keeps (Dead jti) (accept_session j m old s)
  accept-Dead old s = search keeps_rules depth 12

  check_session-Dead : (old : RefreshClaims) → Keeps (Dead jti) (check_session j m old)
  unfolding check_session
  check_session-Dead old = search (keeps_rules, get-Dead, accept-Dead) depth 12

  pub check_blacklist-Dead : (old : RefreshClaims) → Keeps (Dead jti) (check_blacklist j m old)
  unfolding check_blacklist
  check_blacklist-Dead old = search (keeps_rules, is_blacklisted-Dead) depth 12

  pub ban-Dead : (old : RefreshClaims) → Keeps (Dead jti) (ban_rotated j m old)
  unfolding ban_rotated
  ban-Dead old = search (keeps_rules, add-Dead) depth 12

  renew-Dead :
      (old : RefreshClaims) (client_id scope username role : String)
      → Keeps (Dead jti) (renew j m old client_id scope username role)
  unfolding renew
  renew-Dead old client_id scope username role =
      search (keeps_rules, lift-Dead, rotate_session-Dead, ban-Dead, set_cookie-Dead) depth 24

  pub unlisted-Dead :
      (users : ℕ → String → Result (String × String)) (old : RefreshClaims) (client_id : String)
      → Keeps (Dead jti) (rotate_unlisted j m users old client_id)
  unfolding rotate_unlisted
  unlisted-Dead users old client_id =
      search (keeps_rules, ask-Dead, check_session-Dead, renew-Dead) depth 12

  pub rotate-Dead :
      (users : ℕ → String → Result (String × String)) (token client_id : String)
      → Keeps (Dead jti) (rotate_tokens j m users token client_id)
  unfolding rotate_tokens
  rotate-Dead users token client_id =
      search (keeps_rules, parse-Dead, check_blacklist-Dead, unlisted-Dead) depth 12

  revoke_parsed-Dead : (r : Result RefreshClaims) → Keeps (Dead jti) (revoke_parsed j m r)
  revoke_parsed-Dead (err e) = Keeps-pure tt
  revoke_parsed-Dead (ok claims) = search (keeps_rules, revoke_one-Dead, add-Dead) depth 12

  try_parse-Dead : (token : String) → Keeps (Dead jti) (try_parse j m token)
  try_parse-Dead token = record { at = λ c h. (parse-Dead token).at c h }

  pub revoke-Dead : (token : String) → Keeps (Dead jti) (revoke_refresh_token j m token)
  unfolding revoke_refresh_token
  revoke-Dead token =
      search (keeps_rules, clear_cookies-Dead, try_parse-Dead, revoke_parsed-Dead) depth 12

  pub revoke_all_tokens-Dead :
      (user_id : String) → Keeps (Dead jti) (revoke_all_user_tokens j m user_id)
  unfolding revoke_all_user_tokens
  revoke_all_tokens-Dead user_id = search (keeps_rules, revoke_all-Dead) depth 12

-- A call of the manager, with its arguments.
pub data Op : Type 0 where
  issue : String → String → String → String → String → String → String → Op
  rotate : (ℕ → String → Result (String × String)) → String → String → Op
  revoke revoke_all : String → Op

module _ (j : Jwt) (m : RefreshTokenManager) where
  unfoldable pub perform : Op → Action Tables ⊤
  unfolding issue_token_pair rotate_tokens revoke_refresh_token revoke_all_user_tokens
  perform (issue user_id username role client_id scope ip ua) =
      ignore (issue_token_pair j m user_id username role client_id scope ip ua)
  perform (rotate users token client_id) = ignore (rotate_tokens j m users token client_id)
  perform (revoke token) = revoke_refresh_token j m token
  perform (revoke_all user_id) = revoke_all_user_tokens j m user_id

  -- The calls one after another, whether they fail or not.
  unfoldable pub run : List Op → Conn Tables → Conn Tables
  unfolding perform
  run [] c = c
  run (op ∷ ops) c = run ops (perform op c).1

  perform-Dead : (jti : String) (op : Op) → Keeps (Dead jti) (perform op)
  unfolding perform
  perform-Dead jti (issue user_id username role client_id scope ip ua) =
      Keeps-ignore _ (issue-Dead j m jti user_id username role client_id scope ip ua)
  perform-Dead jti (rotate users token client_id) =
      Keeps-ignore _ (rotate-Dead j m jti users token client_id)
  perform-Dead jti (revoke token) = revoke-Dead j m jti token
  perform-Dead jti (revoke_all user_id) = revoke_all_tokens-Dead j m jti user_id

  pub run-Dead :
      (jti : String) (ops : List Op) (c : Conn Tables)
      → Dead jti c.tables
      → Dead jti (run ops c).tables
  unfolding run
  run-Dead jti [] c h = h
  run-Dead jti (op ∷ ops) c h = run-Dead jti ops (perform op c).1 ((perform-Dead jti op).at c h)
