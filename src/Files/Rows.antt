-- ===== src/Files/Rows.antt =====
-- The conditions and the assignments of the statements on the table of files
-- (internal/store/file_repo.go, internal/store/trash_repo.go).
use first_golang.Prelude.{
  ℕ, ◌+◌, String, none, some, Bool, true, false, List, [], ◌∷◌, ◌&&◌, not, str_eq, ◌==◌, ltb,
  if◌then◌else◌,
}
use first_golang.Sql.Rows.{update_where}
use first_golang.Sql.Where.{matches}
use first_golang.Files.Defs.{FileRecord, ApiToken, is_live, is_completed, in_space}
use first_golang.Files.Like.{like_prefix, codes}

abbrev pub has_id : String → FileRecord → Bool
has_id id f = str_eq f.id id && is_live f

abbrev pub has_name : String → String → String → FileRecord → Bool
has_name space_id filename owner f =
    str_eq f.filename filename
    && (is_completed f && (is_live f && (in_space space_id f && matches owner f.owner)))

abbrev pub has_hash : String → String → ℕ → FileRecord → Bool
has_hash hash owner size f =
    str_eq f.hash hash
    && (f.size == size && (is_completed f && (is_live f && matches owner f.owner)))

abbrev pub named : String → ℕ → FileRecord → FileRecord
named filename t f = record f { filename = filename; updated_at = t }

-- The rows that the caller may change: any of them where the owner is "".
abbrev pub owned : String → String → FileRecord → Bool
owned id owner f = str_eq f.id id && matches owner f.owner

abbrev pub measured : ℕ → String → ℕ → FileRecord → FileRecord
measured size hash t f = record f { size = size; hash = hash; updated_at = t }

abbrev pub drop_name : String → List String → List String
drop_name n [] = []
drop_name n (m ∷ ms) = let rest = drop_name n ms in if str_eq m n then rest else m ∷ rest

abbrev pub charged : String → ℕ → List ApiToken → List ApiToken
charged id size ts =
    update_where (λ k. str_eq k.id id) (λ k. record k { quota_used = k.quota_used + size }) ts

abbrev pub is_listed : (ℕ → ℕ → Bool) → String → String → String → FileRecord → Bool
is_listed same space_id prefix owner f =
    is_completed f
    && (is_live f
        && (in_space space_id f
            && ((if str_eq prefix ""
                  then true
                  else like_prefix same (codes prefix) (codes f.filename))
                && matches owner f.owner)))

abbrev pub trashed : ℕ → FileRecord → FileRecord
trashed t f = record f { deleted_at = some t }

abbrev pub in_trash : String → String → FileRecord → Bool
in_trash space_id owner f = not (is_live f) && (in_space space_id f && matches owner f.owner)

abbrev pub deletion_time : FileRecord → ℕ
deletion_time f = elim f.deleted_at [ none ↦ 0 | some t ↦ t ]

-- A row of the trash that the caller may touch.
abbrev pub trashed_id : String → String → FileRecord → Bool
trashed_id id owner f = str_eq f.id id && (not (is_live f) && matches owner f.owner)

abbrev pub restored : ℕ → FileRecord → FileRecord
restored t f = record f { deleted_at = none; updated_at = t }

abbrev pub any_trashed_id : String → FileRecord → Bool
any_trashed_id id f = str_eq f.id id && not (is_live f)

abbrev pub refers_to : String → FileRecord → Bool
refers_to storage_path f = str_eq f.storage_path storage_path

abbrev pub is_expired : ℕ → FileRecord → Bool
is_expired cutoff f = elim f.deleted_at [ none ↦ false | some t ↦ ltb t cutoff ]
