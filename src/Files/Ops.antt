-- ===== src/Files/Ops.antt =====
-- The statements on the table of files (internal/store/file_repo.go). `same` says which characters
-- LIKE takes for equal.
use first_golang.Prelude.{
  ℕ, String, none, Bool, true, false, List, [], ◌∷◌, ◌++◌, str_eq, any, count_if,
}
use first_golang.Sql.Rows.{rows_where, first_where, update_where, remove_where, by_desc, head}
use first_golang.Sql.Exec.{
  Result, ok, err, unique, Action, ◌>>=◌, pure, statement, query, now, scan, update, ⊤,
}
use first_golang.Files.Defs.{FileRecord, State}
use first_golang.Files.Rows.{
  has_id, has_name, has_hash, is_listed, named, owned, measured, drop_name, charged,
}

module _ {S : Type 0} where
  abbrev pub with_files : (List FileRecord → List FileRecord) → State S → State S
  with_files f t = record t { files = f t.files }

  -- The three ways to change the table, the first two with the number of rows they touch.
  abbrev pub change_files : (FileRecord → Bool) → (FileRecord → FileRecord) → Action (State S) ℕ
  change_files p f = statement (λ t. (ok (count_if p t.files), with_files (update_where p f) t))

  abbrev pub erase_files : (FileRecord → Bool) → Action (State S) ℕ
  erase_files p = statement (λ t. (ok (count_if p t.files), with_files (remove_where p) t))

  -- An insertion fails where the key is taken.
  abbrev pub insert_row : Bool → FileRecord → State S → Result ⊤ × State S
  insert_row true f t = (err unique, t)
  insert_row false f t = (ok tt, with_files (λ fs. fs ++ f ∷ []) t)

  abbrev pub add_file : FileRecord → State S → Result ⊤ × State S
  add_file f t = insert_row (any (λ g. str_eq g.id f.id) t.files) f t

  -- `CreateFile`: the column deleted_at is not in the statement.
  unfoldable pub create_file : FileRecord → Action (State S) ⊤
  create_file f = statement (add_file (record f { deleted_at = none }))

  unfoldable pub get_file : String → Action (State S) FileRecord
  get_file id = query (λ t. scan (first_where (has_id id) t.files))

  unfoldable pub find_file_by_name : String → String → String → Action (State S) FileRecord
  find_file_by_name space_id filename owner = query λ t.
      scan
        (head (by_desc (λ f. f.created_at) (rows_where (has_name space_id filename owner) t.files)))

  unfoldable pub get_file_by_hash : String → String → ℕ → Action (State S) FileRecord
  get_file_by_hash hash owner size =
      query λ t.
        scan (head (by_desc (λ f. f.created_at) (rows_where (has_hash hash owner size) t.files)))

  module _ (same : ℕ → ℕ → Bool) where
    unfoldable pub list_files : String → String → String → Action (State S) (List FileRecord)
    list_files space_id prefix owner = query λ t.
        ok (by_desc (λ f. f.created_at) (rows_where (is_listed same space_id prefix owner) t.files))

  unfoldable pub update_filename : String → String → String → Action (State S) ⊤
  update_filename id new_filename owner = do
    t ← now
    _ ← change_files (owned id owner) (named new_filename t)
    pure tt

  unfoldable pub update_file_meta : String → ℕ → String → String → Action (State S) ⊤
  update_file_meta id size hash owner = do
    t ← now
    _ ← change_files (owned id owner) (measured size hash t)
    pure tt

  -- The set of file names in Redis (internal/store/rediscache.go)
  unfoldable pub mark_file_exists : String → Action (State S) ⊤
  mark_file_exists filename = update λ t. record t { marked = filename ∷ t.marked }

  unfoldable pub unmark_file_exists : String → Action (State S) ⊤
  unmark_file_exists filename = update λ t. record t { marked = drop_name filename t.marked }

  unfoldable pub add_api_token_quota_used : String → ℕ → Action (State S) ⊤
  add_api_token_quota_used id size = update λ t. record t { tokens = charged id size t.tokens }
