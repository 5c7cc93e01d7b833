-- ===== src/Files/Restore.antt =====
-- A file that is moved to the trash and restored (internal/store/trash_repo.go).
use first_golang.Prelude.{
  ℕ, String, none, true, ◌≡◌, refl, ap, List, [], ◌∷◌, inl, inr, All, str_eq, if◌then◌else◌,
  Bool-cases,
}
use first_golang.Sql.Rows.{update_where}
use first_golang.Sql.Where.{matches}
use first_golang.Sql.Exec.{Conn, calm}
use first_golang.Files.Defs.{FileRecord, State}
use first_golang.Files.Rows.{has_id, trashed, trashed_id, restored}
use first_golang.Files.Ops.{with_files}
use first_golang.Files.Trash.{delete_file, restore_file}

abbrev pub touched : ℕ → FileRecord → FileRecord
touched t f = record f { updated_at = t }

-- The rows with the id are live and may be restored by the owner.
abbrev pub AreRestorable : String → String → List FileRecord → Type 0
AreRestorable id owner fs =
    All (λ f. str_eq f.id id ≡ true → (f.deleted_at ≡ none) × (matches owner f.owner ≡ true)) fs

one_row :
    (id owner : String) (t u : ℕ) (f : FileRecord)
    → (str_eq f.id id ≡ true → (f.deleted_at ≡ none) × (matches owner f.owner ≡ true))
    → let g = if has_id id f then trashed t f else f in
      (if trashed_id id owner g then restored u g else g)
      ≡ (if str_eq f.id id then touched u f else f)
one_row id owner t u f h = elim (Bool-cases (str_eq f.id id)) [
  | inl b ↦ let (l, m) = h b in rw (b, l) (rw (b, m) refl)
  | inr b ↦ rw b (rw b refl)
]

rows_back :
    (id owner : String) (t u : ℕ) (fs : List FileRecord)
    → AreRestorable id owner fs
    → update_where (trashed_id id owner) (restored u) (update_where (has_id id) (trashed t) fs)
      ≡ update_where (λ f. str_eq f.id id) (touched u) fs
rows_back id owner t u [] h = refl
rows_back id owner t u (f ∷ fs) h = cc (one_row id owner t u f h.0, rows_back id owner t u fs h.1)

-- Where the driver does not fail and the rows with the id are live and may be restored by the
-- caller, a file that is moved to the trash and restored is as it was before, but for the time of
-- its last update, and so is everything else.
pub restore_file-delete_file :
    {S : Type 0} (id owner : String) (c : Conn (State S))
    → AreRestorable id owner c.tables.files
    → let d = (delete_file id (calm c)).1 in
      (restore_file id owner d).1.tables
      ≡ with_files (update_where (λ f. str_eq f.id id) (touched (d.clock d.tick))) c.tables
unfolding delete_file restore_file
restore_file-delete_file id owner c h =
    ap (λ z. with_files (λ _. z) c.tables) (rows_back id owner (c.clock c.tick) _ c.tables.files h)
