-- ===== src/Auth/Codes.antt =====
-- The authorization codes of OAuth (internal/auth/oauth2.go) and their table
-- (internal/store/oauth_repo.go). Times are seconds.
pub mod Once
mod Tests
use first_golang.Prelude.{
  ℕ, String, Option, none, some, Bool, true, false, List, [], ◌∷◌, ◌++◌, ◌&&◌, ◌||◌, not, ◌==◌, ltb,
  str_eq, any, count_if, if◌then◌else◌,
}
use first_golang.Sql.Rows.{first_where, update_where}
use first_golang.Sql.Exec.{
  Result, ok, err, Action, Error, unique, message, statement, query, raise, pure, now, ◌>>=◌, ⊤,
}

-- A row of oauth_codes
pub record AuthCode : Type 0 where
  pub code : String
  pub client_id : String
  pub user_id : String
  pub redirect_uri : String
  pub scope : String
  pub state : String
  pub nonce : String
  pub code_challenge : String
  pub code_challenge_method : String
  pub expires_at : ℕ
  pub used : Bool

abbrev pub has_code : String → AuthCode → Bool
has_code code x = str_eq x.code code

abbrev pub is_unused : String → AuthCode → Bool
is_unused code x = str_eq x.code code && not x.used

abbrev pub marked_used : AuthCode → AuthCode
marked_used x = record x { used = true }

abbrev pub insert_code : Bool → AuthCode → List AuthCode → Result ⊤ × List AuthCode
insert_code true x t = (err unique, t)
insert_code false x t = (ok tt, x ∷ t)

-- `SaveAuthCode`: the code is the primary key, and the column `used` has its default.
unfoldable pub save_auth_code : AuthCode → Action (List AuthCode) ⊤
save_auth_code x =
    statement (λ t. insert_code (any (has_code x.code) t) (record x { used = false }) t)

abbrev pub invalid_client : Error
invalid_client = message "invalid client"

abbrev pub auth_code_used : Error
auth_code_used = message "authorization code already used"

abbrev pub found_code : Option AuthCode → Result AuthCode
found_code none = err invalid_client
found_code (some x) = ok x

abbrev pub claim : String → Action (List AuthCode) ℕ
claim code =
    statement (λ t. (ok (count_if (is_unused code) t), update_where (is_unused code) marked_used t))

abbrev pub claimed : AuthCode → ℕ → Action (List AuthCode) AuthCode
claimed x affected = if affected == 0 then raise auth_code_used else pure x

abbrev pub claim_at : String → AuthCode → ℕ → Action (List AuthCode) AuthCode
claim_at code x t =
    if ltb x.expires_at t
    then raise (message "authorization code expired")
    else claim code >>= claimed x

abbrev pub claim_found : String → AuthCode → Action (List AuthCode) AuthCode
claim_found code x = if x.used then raise auth_code_used else now >>= claim_at code x

-- `GetAndMarkUsed`
unfoldable pub get_and_mark_used : String → String → Action (List AuthCode) AuthCode
get_and_mark_used code client_id =
    query
      (λ t. found_code (first_where (λ x. str_eq x.code code && str_eq x.client_id client_id) t))
    >>= claim_found code

module _ (s256 : String → String) where
  -- `VerifyPKCE`: is the error nil? `s256` is the digest in base64url.
  unfoldable pub verify_pkce : String → String → String → Bool
  verify_pkce challenge method verifier =
      if str_eq challenge "" || str_eq verifier ""
      then true
      else if str_eq method "S256" || str_eq method ""
      then str_eq (s256 verifier) challenge
      else if str_eq method "plain"
      then str_eq verifier challenge
      else false

  abbrev pub check_code :
      String → String → AuthCode → Action (List AuthCode) (String × String × String)
  check_code redirect_uri verifier x =
      if not (str_eq x.redirect_uri redirect_uri)
      then raise (message "redirect_uri mismatch")
      else if not (verify_pkce x.code_challenge x.code_challenge_method verifier)
      then raise (message "pkce challenge verification failed")
      else pure (x.user_id, x.scope, x.state)

  -- `ValidateAuthCode`
  unfoldable pub validate_auth_code :
      String → String → String → String → Action (List AuthCode) (String × String × String)
  unfolding verify_pkce
  validate_auth_code code client_id redirect_uri verifier =
      get_and_mark_used code client_id >>= check_code redirect_uri verifier
