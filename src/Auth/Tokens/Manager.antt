-- ===== src/Auth/Tokens/Manager.antt =====
-- The token manager and the claims it signs. Signing, the decoding of a token with its signature
-- and the validation of its times are the JWT library's: parameters of the operations, of which
-- nothing is assumed.
use first_golang.Prelude.{ℕ, ◌+◌, ltb, str_eq, String, Bool, List, [], ◌∷◌, ◌++◌, if◌then◌else◌}
use first_golang.Prelude.Int.{pos, negsuc}
use first_golang.Sql.Exec.{Action, Result, ⊤, put, ◌>>◌}
use first_golang.Auth.Tokens.Sessions.{Tables, Cookie}

pub record RegisteredClaims : Type 0 where
  pub issuer : String
  pub subject : String
  pub audience : List String
  pub expires_at : ℕ
  pub not_before : ℕ
  pub issued_at : ℕ
  pub id : String

pub record AccessClaims : Type 0 where
  pub user_id : String
  pub username : String
  pub role : String
  pub scope : String
  pub azp : String
  pub registered : RegisteredClaims

pub record RefreshClaims : Type 0 where
  pub user_id : String
  pub session_id : String
  pub azp : String
  pub registered : RegisteredClaims

-- `sessions` and `blacklist` say whether the manager has the store in question; both are optional.
pub record RefreshTokenManager : Type 0 where
  pub issuer : String
  pub access_ttl : ℕ
  pub refresh_ttl : ℕ
  pub domain : String
  pub is_secure : Bool
  pub sessions : Bool
  pub blacklist : Bool

-- `NewRefreshTokenManager`: the stores are given or nil.
unfoldable pub new_refresh_token_manager : String → Bool → Bool → Bool → RefreshTokenManager
new_refresh_token_manager domain is_secure sessions blacklist = record {
  issuer = "filesync-auth";
  access_ttl = 900;
  refresh_ttl = 604800;
  domain = domain;
  is_secure = is_secure;
  sessions = sessions;
  blacklist = blacklist;
}

-- `WithTTL`: a duration that is not positive leaves the default.
unfoldable pub with_ttl : RefreshTokenManager → ℕ → ℕ → RefreshTokenManager
with_ttl m access refresh = record m {
  access_ttl = if ltb 0 access then access else m.access_ttl;
  refresh_ttl = if ltb 0 refresh then refresh else m.refresh_ttl;
}

unfoldable pub with_issuer : RefreshTokenManager → String → RefreshTokenManager
with_issuer m iss = if str_eq iss "" then m else record m { issuer = iss }

-- The library that signs and parses tokens.
pub record Jwt : Type 0 where
  pub sign_access : AccessClaims → Result String
  pub sign_refresh : RefreshClaims → Result String
  pub decode_refresh : String → Result RefreshClaims
  pub decode_access : String → Result AccessClaims
  pub validate_access : ℕ → AccessClaims → Result ⊤
  pub validate : ℕ → RefreshClaims → Result ⊤

abbrev same_site_mode : RefreshTokenManager → String
same_site_mode m = if m.is_secure then "Strict" else "Lax"

abbrev pub push_cookie : Cookie → Tables → Tables
push_cookie k t = record t { cookies = t.cookies ++ k ∷ [] }

unfoldable pub set_cookie : RefreshTokenManager → String → String → ℕ → Action Tables ⊤
set_cookie m name value ttl = put (
    push_cookie (record {
      name = name;
      value = value;
      domain = m.domain;
      max_age = pos ttl;
      is_secure = m.is_secure;
      same_site = same_site_mode m;
    }))

abbrev clear_cookie : RefreshTokenManager → String → Action Tables ⊤
clear_cookie m name = put (
    push_cookie (record {
      name = name;
      value = "";
      domain = m.domain;
      max_age = negsuc 0;
      is_secure = m.is_secure;
      same_site = same_site_mode m;
    }))

unfoldable pub clear_cookies : RefreshTokenManager → Action Tables ⊤
clear_cookies m = clear_cookie m "fs_access_token" >> clear_cookie m "fs_refresh_token"

abbrev pub registered_claims :
    RefreshTokenManager → String → String → ℕ → ℕ → String → RegisteredClaims
registered_claims m user_id client_id at ttl id = record {
  issuer = m.issuer;
  subject = user_id;
  audience = client_id ∷ [];
  expires_at = at + ttl;
  not_before = at;
  issued_at = at;
  id = id;
}
