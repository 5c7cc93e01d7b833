-- ===== src/Auth/Tokens/Dead.antt =====
-- Sessions that are revoked, under each statement of the store.
use first_golang.Prelude.{
  ℕ, ◌≡◌, ap, ◌∙◌, String, Option, none, some, List, [], ◌∷◌, ◌++◌, Bool, true, false, arith,
}
use first_golang.Sql.Exec.{Result, update, put, statement}
use first_golang.Sql.Keeps.{
  Keeps, Keeps-statement, Keeps-update, Keeps-put, Keeps-transaction, Keeps-pure, keeps_rules,
}
use first_golang.Auth.Tokens.Sessions.{
  RefreshSession, Tables, find_session, is_some, mark_revoked, revoke_where, has_jti,
  insert_session, rotate_statements, BlacklistEntry, is_blacklisted, expire, rotate_session,
  create_refresh_session, add_to_blacklist, revoke_all_user_sessions, revoke_session_by_jti,
  get_session_by_jti,
}
use first_golang.Auth.Tokens.Manager.{RefreshTokenManager, set_cookie, clear_cookies}
use first_golang.Auth.Tokens.Ops.{lift, ask}

abbrev pub is_dead : String → List RefreshSession → Bool
is_dead jti ss = elim (find_session jti ss) [ none ↦ false | some s ↦ is_some s.revoked_at ]

-- The session with the id is there, and revoked.
abbrev pub Dead : String → Tables → Type 0
Dead jti t = is_dead jti t.sessions ≡ true

module _ (jti : String) where
  pub dead-append :
      (s : RefreshSession) (ss : List RefreshSession)
      → is_dead jti ss ≡ true
      → is_dead jti (ss ++ s ∷ []) ≡ true
  dead-append s [] h = cc
  dead-append s (x ∷ xs) h = ground (arith, dead-append s xs)

  pub dead-mark :
      (p : RefreshSession → Bool) (at : ℕ) (ss : List RefreshSession)
      → is_dead jti ss ≡ true
      → is_dead jti (mark_revoked p at ss) ≡ true
  dead-mark p at [] h = cc
  dead-mark p at (x ∷ xs) h = ground (arith, dead-mark p at xs)

  -- The UPDATE of a rotation revokes the session, where there is one.
  pub dead_marked :
      (at : ℕ) (s : RefreshSession) (ss : List RefreshSession)
      → find_session jti (mark_revoked (has_jti jti) at ss) ≡ some s
      → is_dead jti (mark_revoked (has_jti jti) at ss) ≡ true
  dead_marked at s [] h = cc
  dead_marked at s (x ∷ xs) h = ground (arith, dead_marked at s xs)

  pub insert-Dead : (s : RefreshSession) → Keeps (Dead jti) (statement (insert_session s))
  insert-Dead s =
      Keeps-statement (insert_session s) λ t h. ground (arith, dead-append s t.sessions h)

  pub revoke-Dead :
      (p : RefreshSession → Bool) (at : ℕ) → Keeps (Dead jti) (update (revoke_where p at))
  revoke-Dead p at = Keeps-update (revoke_where p at) (λ t h. dead-mark p at t.sessions h)

  -- A change to another table.
  pub same-Dead :
      (f : Tables → Tables)
      → ((t : Tables) → (f t).sessions ≡ t.sessions)
      → Keeps (Dead jti) (update f)
  same-Dead f k = Keeps-update f (λ t h. ap (is_dead jti) (k t) ∙ h)

  pub put-Dead :
      (f : Tables → Tables)
      → ((t : Tables) → (f t).sessions ≡ t.sessions)
      → Keeps (Dead jti) (put f)
  put-Dead f k = Keeps-put f (λ t h. ap (is_dead jti) (k t) ∙ h)

  pub lift-Dead : {A : Type 0} (r : Result A) → Keeps (Dead jti) (lift r)
  lift-Dead r = record { at = λ c h. h }

  pub ask-Dead : {A : Type 0} (f : ℕ → Result A) → Keeps (Dead jti) (ask f)
  ask-Dead f = record { at = λ c h. h }

  pub statements-Dead :
      (old session_id new : String) (expires_at : ℕ)
      → Keeps (Dead jti) (rotate_statements old session_id new expires_at)
  unfolding rotate_statements
  statements-Dead old session_id new expires_at =
      search (keeps_rules, insert-Dead, revoke-Dead) depth 12

  pub rotate_session-Dead :
      (old session_id new : String) (expires_at : ℕ)
      → Keeps (Dead jti) (rotate_session old session_id new expires_at)
  unfolding rotate_session
  rotate_session-Dead old session_id new expires_at =
      Keeps-transaction (Dead jti) (rotate_statements old session_id new expires_at)
        (statements-Dead old session_id new expires_at)

  pub create-Dead :
      (session_id user_id client_id new scope ip ua : String) (expires_at : ℕ)
      → Keeps
          (Dead jti)
          (create_refresh_session session_id user_id client_id new scope ip ua expires_at)
  unfolding create_refresh_session
  create-Dead session_id user_id client_id new scope ip ua expires_at =
      search (keeps_rules, insert-Dead) depth 12

  pub add-Dead : (id : String) (ttl : ℕ) → Keeps (Dead jti) (add_to_blacklist id ttl)
  unfolding add_to_blacklist
  add-Dead id ttl = search (keeps_rules, same-Dead) depth 12

  pub revoke_all-Dead : (user_id : String) → Keeps (Dead jti) (revoke_all_user_sessions user_id)
  unfolding revoke_all_user_sessions
  revoke_all-Dead user_id = search (keeps_rules, revoke-Dead) depth 12

  pub revoke_one-Dead : (id : String) → Keeps (Dead jti) (revoke_session_by_jti id)
  unfolding revoke_session_by_jti
  revoke_one-Dead id = search (keeps_rules, revoke-Dead) depth 12

  pub get-Dead : (id : String) → Keeps (Dead jti) (get_session_by_jti id)
  unfolding get_session_by_jti
  get-Dead id = search keeps_rules depth 12

  pub set_cookie-Dead :
      (m : RefreshTokenManager) (name value : String) (ttl : ℕ)
      → Keeps (Dead jti) (set_cookie m name value ttl)
  unfolding set_cookie
  set_cookie-Dead m name value ttl = search put-Dead

  pub clear_cookies-Dead : (m : RefreshTokenManager) → Keeps (Dead jti) (clear_cookies m)
  unfolding clear_cookies
  clear_cookies-Dead m = search (keeps_rules, put-Dead) depth 12

  expire-Dead : (id : String) (b : Option BlacklistEntry) → Keeps (Dead jti) (expire id b)
  expire-Dead id none = Keeps-pure false
  expire-Dead id (some b) = search (keeps_rules, same-Dead) depth 12

  pub is_blacklisted-Dead : (id : String) → Keeps (Dead jti) (is_blacklisted id)
  unfolding is_blacklisted
  is_blacklisted-Dead id = search (keeps_rules, expire-Dead) depth 12
