-- ===== src/Auth/Tokens/Revoke.antt =====
-- Which sessions a rotation accepts, and what ends them.
use first_golang.Prelude.{
  ℕ, ◌≡◌, ◌≢◌, ap, ◌∙◌, String, Option, none, some, List, [], ◌∷◌, Bool, true, false, arith, str_eq,
  str_eq_iff, ◌&&◌, not, Option-cases, Bool-cases, inl, inr,
}
use first_golang.Sql.Exec.{Conn, Result, ok, update, wrapped}
use first_golang.Sql.Keeps.{Keeps, Keeps-update, Keeps-wrapped, Keeps-pure, keeps_rules}
use first_golang.Sql.Refuses.{Refuses, Refuses-raise, Refuses-if, Refuses-first, Refuses-then}
use first_golang.Auth.Tokens.Sessions.{
  RefreshSession, BlacklistEntry, Tables, find_session, is_some, mark_revoked, live_of, has_user,
  get_session_by_jti, is_blacklisted, expire, revoke_all_user_sessions,
}
use first_golang.Auth.Tokens.Manager.{RefreshTokenManager, Jwt, RefreshClaims}
use first_golang.Auth.Tokens.Ops.{
  lift, Rotation, parse_refresh_token, check_session, check_blacklist, rotate_unlisted,
  rotate_parsed, unless_listed, rotate_tokens, revoke_all_user_tokens,
}
use first_golang.Auth.Tokens.Dead.{Dead, is_dead}
use first_golang.Auth.Tokens.Stays.{Op, run, run-Dead}
use first_golang.Auth.Tokens.Once.{rotate-Refuses, parsed}

dead_user :
    (user_id jti : String) (at : ℕ) (s : RefreshSession) (ss : List RefreshSession)
    → find_session jti ss ≡ some s
    → s.user_id ≡ user_id
    → is_dead jti (mark_revoked (live_of (has_user user_id)) at ss) ≡ true
dead_user user_id jti at s [] h u = cc
dead_user user_id jti at s (x ∷ xs) h u =
    ground (arith, dead_user user_id jti at s xs, str_eq_iff s.user_id user_id)

-- Once all tokens of a user are revoked without an error, no refresh token of a session of that
-- user that was in the table before is rotated, whatever the driver does: not after any further
-- calls of the manager either, as long as it has its session store.
pub revoke_all_final :
    (j : Jwt) (m : RefreshTokenManager) (users : ℕ → String → Result (String × String))
    (user_id token client_id : String) (claims : RefreshClaims) (s : RefreshSession) (ops : List Op)
    (c : Conn Tables) (r : Rotation)
    → m.sessions ≡ true
    → j.decode_refresh token ≡ ok claims
    → find_session claims.registered.id c.tables.sessions ≡ some s
    → s.user_id ≡ user_id
    → (revoke_all_user_tokens j m user_id c).0 ≡ ok tt
    → (rotate_tokens j m users token client_id
        (run j m ops (revoke_all_user_tokens j m user_id c).1)).0
      ≢ ok r
revoke_all_final j m users user_id token client_id claims s ops c r on e f u h =
    let d = (revoke_all_user_tokens j m user_id c).1 in
    let id = claims.registered.id in
    let dead : Dead id d.tables =
      unfold revoke_all_user_tokens revoke_all_user_sessions in
      ground (arith, dead_user user_id id (c.clock c.tick) s c.tables.sessions f u) in
    (rotate-Refuses j m users token client_id claims on e).at (run j m ops d) r
      (run-Dead j m id ops d dead)

-- The id has a session that is the user's and not revoked.
abbrev is_open : String → String → List RefreshSession → Bool
is_open jti user_id ss = elim (find_session jti ss) [
  | none ↦ false
  | some s ↦ str_eq s.user_id user_id && not (is_some s.revoked_at)
]

abbrev Closed : String → String → Tables → Type 0
Closed jti user_id t = is_open jti user_id t.sessions ≡ false

module _ (jti user_id : String) where
  same-Closed :
      (f : Tables → Tables)
      → ((t : Tables) → (f t).sessions ≡ t.sessions)
      → Keeps (Closed jti user_id) (update f)
  same-Closed f k = Keeps-update f (λ t h. ap (is_open jti user_id) (k t) ∙ h)

  expire-Closed :
      (id : String) (b : Option BlacklistEntry) → Keeps (Closed jti user_id) (expire id b)
  expire-Closed id none = Keeps-pure false
  expire-Closed id (some b) = search (keeps_rules, same-Closed) depth 12

  listed-Closed : (id : String) → Keeps (Closed jti user_id) (is_blacklisted id)
  unfolding is_blacklisted
  listed-Closed id = search (keeps_rules, expire-Closed) depth 12

  lift-Closed : {A : Type 0} (r : Result A) → Keeps (Closed jti user_id) (lift r)
  lift-Closed r = record { at = λ c h. h }

module _ (j : Jwt) (m : RefreshTokenManager) where
  check_blacklist-Closed :
      (jti user_id : String) (old : RefreshClaims)
      → Keeps (Closed jti user_id) (check_blacklist j m old)
  unfolding check_blacklist
  check_blacklist-Closed jti user_id old = search (keeps_rules, listed-Closed) depth 12

  parse-Closed :
      (jti user_id token : String) → Keeps (Closed jti user_id) (parse_refresh_token j m token)
  unfolding parse_refresh_token
  parse-Closed jti user_id token = search (keeps_rules, lift-Closed) depth 12

  shut_refused :
      (old : RefreshClaims) (c : Conn Tables) (scope : String)
      → m.sessions ≡ true
      → Closed old.registered.id old.user_id c.tables
      → (check_session j m old c).0 ≢ ok scope
  unfolding check_session get_session_by_jti
  shut_refused old c scope s d h =
      elim (Option-cases (find_session old.registered.id c.tables.sessions)) [
        | inl e ↦ ground arith
        | inr (x, e) ↦ ground arith
      ]

  check_session-Refuses :
      (old : RefreshClaims)
      → m.sessions ≡ true
      → Refuses (Closed old.registered.id old.user_id) (check_session j m old)
  check_session-Refuses old s = record { at = λ c scope d. shut_refused old c scope s d }

  unlisted-Refuses :
      (users : ℕ → String → Result (String × String)) (old : RefreshClaims) (client_id : String)
      → m.sessions ≡ true
      → Refuses (Closed old.registered.id old.user_id) (rotate_unlisted j m users old client_id)
  unfolding rotate_unlisted
  unlisted-Refuses users old client_id s = search (Refuses-first, check_session-Refuses)

  shut-Refuses :
      (users : ℕ → String → Result (String × String)) (token client_id : String)
      (claims : RefreshClaims)
      → m.sessions ≡ true
      → j.decode_refresh token ≡ ok claims
      → Refuses
          (Closed claims.registered.id claims.user_id)
          (rotate_tokens j m users token client_id)
  unfolding rotate_tokens
  shut-Refuses users token client_id claims s e =
      let id = claims.registered.id in
      Refuses-if (str_eq token "") _ _ (Refuses-raise _) (
        Refuses-then (wrapped "invalid refresh token" (parse_refresh_token j m token))
          (rotate_parsed j m users client_id)
          (Keeps-wrapped _ _ (parse-Closed id claims.user_id token))
          λ old c h. rw (← parsed j m token claims old c e h) (
            Refuses-then (check_blacklist j m claims) (unless_listed j m users claims client_id)
              (check_blacklist-Closed id claims.user_id claims)
              λ listed _ _.
                Refuses-if listed _ _ (Refuses-raise _)
                  (unlisted-Refuses users claims client_id s)))

open_session :
    (jti user_id : String) (ss : List RefreshSession)
    → is_open jti user_id ss ≡ true
    → (s : RefreshSession) × (find_session jti ss ≡ some s)
      × (s.user_id ≡ user_id)
      × (s.revoked_at ≡ none)
open_session jti user_id ss h = elim (Option-cases (find_session jti ss)) [
  | inl e ↦ absurd (ground arith)
  | inr (s, e) ↦ (s, e, ground (arith, str_eq_iff s.user_id user_id), ground arith)
]

-- Whatever the driver does, a manager with its session store rotates only a token whose id has a
-- session in the table that belongs to the user in the token and is not revoked.
pub rotate_checked :
    (j : Jwt) (m : RefreshTokenManager) (users : ℕ → String → Result (String × String))
    (token client_id : String) (claims : RefreshClaims) (c : Conn Tables) (r : Rotation)
    → m.sessions ≡ true
    → j.decode_refresh token ≡ ok claims
    → (rotate_tokens j m users token client_id c).0 ≡ ok r
    → (s : RefreshSession) × (find_session claims.registered.id c.tables.sessions ≡ some s)
      × (s.user_id ≡ claims.user_id)
      × (s.revoked_at ≡ none)
rotate_checked j m users token client_id claims c r s e h =
    let id = claims.registered.id in
    elim (Bool-cases (is_open id claims.user_id c.tables.sessions)) [
      | inl o ↦ open_session id claims.user_id c.tables.sessions o
      | inr o ↦ absurd ((shut-Refuses j m users token client_id claims s e).at c r o h)
    ]
