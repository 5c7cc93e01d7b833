-- ===== src/Auth/Tokens/Tests.antt =====
-- A manager with both stores, and one session of alice.
use first_golang.Prelude.{ℕ, ◌≡◌, ◌≢◌, refl, String, none, some, [], ◌∷◌, true}
use first_golang.Sql.Exec.{Conn, Result, ok, never, calm, err, message}
use first_golang.Auth.Tokens.Sessions.{
  RefreshSession, Tables, find_session, rotate_session, rotate_statements, get_session_by_jti,
  is_blacklisted, add_to_blacklist, revoke_all_user_sessions,
}
use first_golang.Auth.Tokens.Manager.{RefreshTokenManager, Jwt, RefreshClaims, set_cookie}
use first_golang.Auth.Tokens.Ops.{
  Rotation, parse_refresh_token, check_session, check_blacklist, ban_rotated, renew,
  rotate_unlisted, rotate_tokens, revoke_all_user_tokens,
}
use first_golang.Auth.Tokens.Stays.{Op, run}
use first_golang.Auth.Tokens.Once.{rotate_once}
use first_golang.Auth.Tokens.Revoke.{revoke_all_final, rotate_checked}
use first_golang.Auth.Tokens.Race.{rotate_revoked}

abbrev claims : RefreshClaims
claims = record {
  user_id = "u1";
  session_id = "s1";
  azp = "web";
  registered = record {
    issuer = "filesync-auth";
    subject = "u1";
    audience = "web" ∷ [];
    expires_at = 1000;
    not_before = 0;
    issued_at = 0;
    id = "j1";
  };
}

-- Signs every claim with the same text and decodes every token to the same claims.
abbrev jwt : Jwt
jwt = record {
  sign_access = λ _. ok "access";
  sign_refresh = λ _. ok "refresh";
  decode_refresh = λ _. ok claims;
  decode_access = λ _. err (message "not an access token");
  validate_access = λ _ _. ok tt;
  validate = λ _ _. ok tt;
}

abbrev manager : RefreshTokenManager
manager = record {
  issuer = "filesync-auth";
  access_ttl = 900;
  refresh_ttl = 604800;
  domain = "";
  is_secure = true;
  sessions = true;
  blacklist = true;
}

abbrev session : RefreshSession
session = record {
  session_id = "s1";
  user_id = "u1";
  client_id = "web";
  jti = "j1";
  scope = "files";
  ip = "";
  user_agent = "";
  expires_at = 1000;
  revoked_at = none;
  created_at = 0;
}

abbrev server : Conn Tables
server = record {
  tables = record { sessions = session ∷ []; blacklist = []; cookies = [] };
  tick = 0;
  fails = never;
  clock = λ n. n;
  nonce = λ _. "n1";
}

abbrev users : ℕ → String → Result (String × String)
users _ _ = ok ("alice", "user")

abbrev rotation : Rotation
rotation = record {
  access_token = "access";
  refresh_token = "refresh";
  expires_in = 900;
  username = "alice";
  role = "user";
}

rotate_once_example :
    (rotate_tokens jwt manager users "t" "web"
      (run jwt manager (Op.revoke "t" ∷ []) (rotate_tokens jwt manager users "t" "web" server).1)).0
    ≢ ok rotation
unfolding rotate_tokens parse_refresh_token check_blacklist is_blacklisted rotate_unlisted
    check_session get_session_by_jti renew rotate_session rotate_statements ban_rotated
    add_to_blacklist set_cookie
rotate_once_example =
    rotate_once jwt manager users users "t" "web" "web" claims (Op.revoke "t" ∷ []) server rotation
      rotation refl refl refl

revoke_all_final_example :
    (rotate_tokens jwt manager users "t" "web"
      (run jwt manager [] (revoke_all_user_tokens jwt manager "u1" server).1)).0
    ≢ ok rotation
unfolding revoke_all_user_tokens revoke_all_user_sessions
revoke_all_final_example =
    revoke_all_final jwt manager users "u1" "t" "web" claims session [] server rotation refl refl
      refl refl refl

rotate_checked_example :
    (s : RefreshSession) × (find_session "j1" server.tables.sessions ≡ some s)
    × (s.user_id ≡ "u1")
    × (s.revoked_at ≡ none)
unfolding rotate_tokens parse_refresh_token check_blacklist is_blacklisted rotate_unlisted
    check_session get_session_by_jti renew rotate_session rotate_statements ban_rotated
    add_to_blacklist set_cookie
rotate_checked_example =
    rotate_checked jwt manager users "t" "web" claims server rotation refl refl refl

rotate_revoked_example :
    ((rotate_session "j1" "s3" "j3" 2000 (calm server)).0 ≡ ok tt)
    × ((x : RefreshSession) × (find_session "j3"
            (rotate_session "j1" "s3" "j3" 2000 (calm server)).1.tables.sessions
          ≡ some x)
        × (x.revoked_at ≡ none)
        × (x.user_id ≡ "u1")
        × (x.scope ≡ "files"))
rotate_revoked_example = rotate_revoked "j1" "s3" "j3" 2000 session server refl refl
