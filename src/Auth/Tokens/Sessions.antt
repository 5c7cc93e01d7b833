-- ===== src/Auth/Tokens/Sessions.antt =====
-- The tables of refresh sessions and of blacklisted token ids, and the statements on them. Times
-- are in seconds.
use first_golang.Prelude.{
  ℕ, ◌+◌, ltb, String, Option, none, some, List, [], ◌∷◌, ◌++◌, Bool, true, false, str_eq, ◌||◌,
  ◌&&◌, if◌then◌else◌,
}
use first_golang.Prelude.Int.{ℤ}
use first_golang.Sql.Exec.{
  Action, Result, ok, err, message, unique, query, statement, ⊤, ◌>>=◌, ◌>>◌, now, update, pure,
  ignore, transaction, scan,
}

pub record RefreshSession : Type 0 where
  pub session_id : String
  pub user_id : String
  pub client_id : String
  pub jti : String
  pub scope : String
  pub ip : String
  pub user_agent : String
  pub expires_at : ℕ
  pub revoked_at : Option ℕ
  pub created_at : ℕ

pub record BlacklistEntry : Type 0 where
  pub jti : String
  pub expires_at : ℕ

-- A cookie of the response; each is `HttpOnly` with the path "/".
pub record Cookie : Type 0 where
  pub name : String
  pub value : String
  pub domain : String
  pub max_age : ℤ
  pub is_secure : Bool
  pub same_site : String

-- The two tables, and the cookies written to the response so far.
pub record Tables : Type 0 where
  pub sessions : List RefreshSession
  pub blacklist : List BlacklistEntry
  pub cookies : List Cookie

abbrev pub find_session : String → List RefreshSession → Option RefreshSession
find_session jti [] = none
find_session jti (s ∷ ss) = if str_eq s.jti jti then some s else find_session jti ss

-- `session_id` is the primary key, and `jti` is UNIQUE.
abbrev pub clashes : String → String → List RefreshSession → Bool
clashes session_id jti [] = false
clashes session_id jti (s ∷ ss) =
    str_eq s.session_id session_id || (str_eq s.jti jti || clashes session_id jti ss)

abbrev pub insert_session : RefreshSession → Tables → Result ⊤ × Tables
insert_session s t =
    if clashes s.session_id s.jti t.sessions
    then (err unique, t)
    else (ok tt, record t { sessions = t.sessions ++ s ∷ [] })

unfoldable pub create_refresh_session :
    String → String → String → String → String → String → String → ℕ → Action Tables ⊤
create_refresh_session session_id user_id client_id jti scope ip ua expires_at = do
  at ← now
  statement (
      insert_session (record {
        session_id = session_id;
        user_id = user_id;
        client_id = client_id;
        jti = jti;
        scope = scope;
        ip = ip;
        user_agent = ua;
        expires_at = expires_at;
        revoked_at = none;
        created_at = at;
      }))

abbrev pub is_some : Option ℕ → Bool
is_some none = false
is_some (some _) = true

-- What `GetSessionByJTI` returns.
pub record SessionView : Type 0 where
  pub session_id : String
  pub user_id : String
  pub scope : String
  pub is_revoked : Bool

abbrev found : Option RefreshSession → Result RefreshSession
found none = err (message "refresh session not found")
found (some s) = ok s

unfoldable pub get_session_by_jti : String → Action Tables SessionView
get_session_by_jti jti = do
  s ← query (λ t. found (find_session jti t.sessions))
  at ← now
  pure (record {
    session_id = s.session_id;
    user_id = s.user_id;
    scope = s.scope;
    is_revoked = is_some s.revoked_at || ltb s.expires_at at;
  })

-- `UPDATE refresh_sessions SET revoked_at = ? WHERE …`
abbrev pub mark_revoked : (RefreshSession → Bool) → ℕ → List RefreshSession → List RefreshSession
mark_revoked p at [] = []
mark_revoked p at (s ∷ ss) =
    (if p s then record s { revoked_at = some at } else s) ∷ mark_revoked p at ss

abbrev pub revoke_where : (RefreshSession → Bool) → ℕ → Tables → Tables
revoke_where p at t = record t { sessions = mark_revoked p at t.sessions }

abbrev pub has_jti : String → RefreshSession → Bool
has_jti jti s = str_eq s.jti jti

-- The statements of `RotateSession` after `Begin`: the UPDATE does not ask whether the session is
-- revoked already.
unfoldable pub rotate_statements : String → String → String → ℕ → Action Tables ⊤
rotate_statements old_jti session_id jti expires_at = do
  at ← now
  update (revoke_where (has_jti old_jti) at)
  old ← query (λ t. scan (find_session old_jti t.sessions))
  statement (
      insert_session (record old {
        session_id = session_id;
        jti = jti;
        expires_at = expires_at;
        revoked_at = none;
        created_at = at;
      }))

unfoldable pub rotate_session : String → String → String → ℕ → Action Tables ⊤
unfolding rotate_statements
rotate_session old_jti session_id jti expires_at =
    transaction (rotate_statements old_jti session_id jti expires_at)

-- `… AND revoked_at IS NULL`
abbrev pub live_of : (RefreshSession → Bool) → RefreshSession → Bool
live_of p s = p s && elim s.revoked_at [ none ↦ true | some _ ↦ false ]

abbrev pub has_user : String → RefreshSession → Bool
has_user user_id s = str_eq s.user_id user_id

unfoldable pub revoke_all_user_sessions : String → Action Tables ⊤
revoke_all_user_sessions user_id = do
  at ← now
  update (revoke_where (live_of (has_user user_id)) at)

unfoldable pub revoke_session_by_jti : String → Action Tables ⊤
revoke_session_by_jti jti = do at ← now; update (revoke_where (live_of (has_jti jti)) at)

abbrev pub find_entry : String → List BlacklistEntry → Option BlacklistEntry
find_entry jti [] = none
find_entry jti (b ∷ bs) = if str_eq b.jti jti then some b else find_entry jti bs

abbrev pub remove_entry : String → List BlacklistEntry → List BlacklistEntry
remove_entry jti [] = []
remove_entry jti (b ∷ bs) =
    let rest = remove_entry jti bs in if str_eq b.jti jti then rest else b ∷ rest

abbrev pub drop_entry : String → Tables → Tables
drop_entry jti t = record t { blacklist = remove_entry jti t.blacklist }

-- `REPLACE INTO`
abbrev pub put_entry : BlacklistEntry → Tables → Tables
put_entry b t = record t { blacklist = b ∷ remove_entry b.jti t.blacklist }

unfoldable pub add_to_blacklist : String → ℕ → Action Tables ⊤
add_to_blacklist jti ttl =
    if str_eq jti ""
    then pure tt
    else (do at ← now; update (put_entry (record { jti = jti; expires_at = at + ttl })))

-- The check of the time in `IsBlacklisted`: an entry that has expired is deleted.
abbrev pub expire : String → Option BlacklistEntry → Action Tables Bool
expire jti none = pure false
expire jti (some b) = do
  at ← now
  if ltb b.expires_at at then ignore (update (drop_entry jti)) >> pure false else pure true

unfoldable pub is_blacklisted : String → Action Tables Bool
is_blacklisted jti =
    if str_eq jti ""
    then pure false
    else query (λ t. ok (find_entry jti t.blacklist)) >>= expire jti
