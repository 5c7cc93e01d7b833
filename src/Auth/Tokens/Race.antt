-- ===== src/Auth/Tokens/Race.antt =====
-- The store's rotation on its own, as two requests reach it that have both passed the checks.
use first_golang.Prelude.{
  ℕ, suc, ◌≡◌, refl, String, none, some, List, [], ◌∷◌, ◌++◌, Bool, false, arith, str_eq_iff,
}
use first_golang.Sql.Exec.{Conn, ok, calm}
use first_golang.Auth.Tokens.Sessions.{
  RefreshSession, Tables, find_session, mark_revoked, has_jti, clashes, rotate_session,
  rotate_statements,
}

marked :
    (jti : String) (at : ℕ) (s : RefreshSession) (ss : List RefreshSession)
    → find_session jti ss ≡ some s
    → find_session jti (mark_revoked (has_jti jti) at ss) ≡ some (record s { revoked_at = some at })
marked jti at s [] h = cc
marked jti at s (x ∷ xs) h = ground (arith, marked jti at s xs)

clashes-mark :
    (p : RefreshSession → Bool) (session_id jti : String) (at : ℕ) (ss : List RefreshSession)
    → clashes session_id jti (mark_revoked p at ss) ≡ clashes session_id jti ss
clashes-mark p session_id jti at [] = refl
clashes-mark p session_id jti at (x ∷ xs) = ground (arith, clashes-mark p session_id jti at xs)

find-inserted :
    (row : RefreshSession) (ss : List RefreshSession)
    → clashes row.session_id row.jti ss ≡ false
    → find_session row.jti (ss ++ row ∷ []) ≡ some row
find-inserted row [] h = ground (arith, str_eq_iff row.jti row.jti)
find-inserted row (x ∷ xs) h = ground (arith, find-inserted row xs)

-- With a driver that does not fail and ids that are not in use, the store's rotation of a session
-- succeeds also where the session is revoked already, and leaves a session under the new id that
-- is not revoked, of the same user and with the same scope.
pub rotate_revoked :
    (old session_id new : String) (expires_at : ℕ) (s : RefreshSession) (c : Conn Tables)
    → find_session old c.tables.sessions ≡ some s
    → clashes session_id new c.tables.sessions ≡ false
    → ((rotate_session old session_id new expires_at (calm c)).0 ≡ ok tt)
      × ((x : RefreshSession) × (find_session new
              (rotate_session old session_id new expires_at (calm c)).1.tables.sessions
            ≡ some x)
          × (x.revoked_at ≡ none)
          × (x.user_id ≡ s.user_id)
          × (x.scope ≡ s.scope))
rotate_revoked old session_id new expires_at s c e k =
    let at = c.clock (suc c.tick) in
    let ss = mark_revoked (has_jti old) at c.tables.sessions in
    let row : RefreshSession = record s {
      session_id = session_id;
      jti = new;
      expires_at = expires_at;
      revoked_at = none;
      created_at = at;
    } in
    let there = marked old at s c.tables.sessions e in
    let free = clashes-mark (has_jti old) session_id new at c.tables.sessions in
    (
      unfold rotate_session rotate_statements in ground (arith, there, free),
      (
        row,
        unfold rotate_session rotate_statements in
            ground (arith, there, free, find-inserted row ss),
        refl,
        refl,
        refl,
      ),
    )
