-- ===== src/Files/Defs.antt =====
-- The rows of the tables that the handlers of files touch, and who calls them. Times are seconds.
use first_golang.Prelude.{
  ℕ, String, Option, none, some, Bool, true, false, List, ◌&&◌, ◌||◌, ◌&◌, str_eq, if◌then◌else◌,
}

-- `FileRecord` of internal/model/model.go
pub record FileRecord : Type 0 where
  pub id : String
  pub filename : String
  pub size : ℕ
  pub hash : String
  pub storage_path : String
  pub storage_type : String
  pub chunk_size : ℕ
  pub total_chunks : ℕ
  pub status : String
  pub owner : String
  pub space_id : String
  pub created_at : ℕ
  pub updated_at : ℕ
  pub deleted_at : Option ℕ

-- The columns of a personal access token that its quota needs.
pub record ApiToken : Type 0 where
  pub id : String
  pub quota_used : ℕ

-- The tables, the set of file names in Redis, and the state of the storage.
pub record State (S : Type 0) : Type 0 where
  pub files : List FileRecord
  pub tokens : List ApiToken
  pub marked : List String
  pub disks : S

-- Who is logged in, and the token of the request with the quota as it was read with the request
-- (none where the token is "").
pub record Caller : Type 0 where
  pub username : String
  pub role : String
  pub token_id : String
  pub quota_bytes : ℕ
  pub quota_used : ℕ

abbrev pub is_admin : Caller → Bool
is_admin who = str_eq who.role "admin"

-- The owner by which the rows are filtered: none for an administrator.
abbrev pub owner_filter : Caller → String
owner_filter who = if is_admin who then "" else who.username

-- `deleted_at IS NULL`
abbrev pub is_live : FileRecord → Bool
is_live f = elim f.deleted_at [ none ↦ true | some _ ↦ false ]

abbrev pub is_completed : FileRecord → Bool
is_completed f = str_eq f.status "completed"

-- `SpaceAll`
abbrev pub all_spaces : String
all_spaces = "*"

-- `spaceFilter`
abbrev pub in_space : String → FileRecord → Bool
in_space space_id f =
    if str_eq space_id all_spaces
    then true
    else if str_eq space_id ""
    then str_eq f.space_id ""
    else str_eq f.space_id space_id

-- `resolveSpaceID`
abbrev pub resolve_space_id : String → Caller → String
resolve_space_id space_id who =
    if is_admin who && (str_eq space_id "" || str_eq space_id "all")
    then all_spaces
    else if str_eq space_id ""
    then "default-" & who.username
    else space_id

-- `normalizeWriteSpace`
abbrev pub normalize_write_space : String → String → String
normalize_write_space space_id username =
    if str_eq space_id "" then "default-" & username else space_id
