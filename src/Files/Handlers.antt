-- ===== src/Files/Handlers.antt =====
-- What the handlers of files answer, and what they share: the quota of personal access tokens
-- (internal/handler/pat_quota.go). A request is decoded before its handler is called.
pub mod Delete
pub mod Trash
pub mod Text
pub mod Dir
use first_golang.Prelude.{
  ℕ, ◌+◌, ◌-◌, ◌^◌, String, Bool, true, false, not, str_eq, leb, ltb, ◌==◌, ◌||◌, ◌&&◌,
  if◌then◌else◌,
}
use first_golang.Prelude.Int.{ℤ, pos, negsuc, ltb_ℤ}
use first_golang.Sql.Exec.{Action, ignore, pure, ⊤}
use first_golang.Sql.Within.{within}
use first_golang.Files.Defs.{Caller, is_admin, State, FileRecord}
use first_golang.Files.Ops.{add_api_token_quota_used}

-- The status of the answer and what it says.
pub data Reply : Type 0 where
  bad_request unauthorized forbidden not_found conflict too_large internal_error : Reply
  trashed_file : String → Reply
  trashed_files : ℕ → Reply
  batch : ℕ → ℕ → Reply  -- how many succeeded and how many failed
  restored_file : String → Reply
  deleted_file : String → Reply
  upload_needed : Reply
  instant_upload : FileRecord → Reply
  created : String → Reply
  contents : String → Reply
  updated : ℕ → String → Reply
  renamed : String → Reply

-- A sum of two int64 that are not negative wraps to a negative one from 2 ^ 63 on.
abbrev pub sum_int64 : ℕ → ℕ → ℤ
sum_int64 a b = if ltb (a + b) (2 ^ 63) then pos (a + b) else negsuc (2 ^ 64 - (a + b) - 1)

-- `CheckPATQuota`: may the caller write so many bytes?
unfoldable pub check_pat_quota : Caller → ℕ → Bool
check_pat_quota who size =
    if str_eq who.token_id ""
    then true
    else if who.quota_bytes == 0
    then true
    else not (ltb_ℤ (pos who.quota_bytes) (sum_int64 who.quota_used size))

-- `AccountPATQuota`
unfoldable pub account_pat_quota : {S : Type 0} → Caller → ℕ → Action (State S) ⊤
account_pat_quota who size =
    if size == 0 || str_eq who.token_id ""
    then pure tt
    else ignore (add_api_token_quota_used who.token_id size)

-- The caller neither owns the file nor is an administrator.
abbrev pub is_forbidden : Caller → FileRecord → Bool
is_forbidden who f = not (str_eq f.owner who.username) && not (is_admin who)

-- `if h.redis != nil { … }`, whose error is only logged
abbrev pub in_redis : {S : Type 0} → Bool → Action (State S) ⊤ → Action (State S) ⊤
in_redis redis m = if redis then ignore m else pure tt

-- A call of the storage
abbrev pub on_disk : {S A : Type 0} → Action S A → Action (State S) A
on_disk m = within (λ t. t.disks) (λ d t. record t { disks = d }) m
