-- ===== src/Biz/Resource/Ops.antt =====
-- The operations on resources, the whitelist and the log of downloads.
use first_golang.Prelude.{
  ℕ, suc, ltb, String, Bool, false, List, str_eq, if◌then◌else◌, ◌&&◌, ◌||◌, not, ◌==◌, count_if,
}
use first_golang.Sql.Table.{insert, modify, delete}
use first_golang.Sql.Listing.{listing, listing_all, delete_where}
use first_golang.Sql.Where.{matches}
use first_golang.Sql.Exec.{
  Action, Result, ok, err, message, query, statement, ⊤, ◌>>=◌, ◌>>◌, now, update, pure,
}
use first_golang.Biz.Resource.Defs.{
  Resource, ResourceWhitelist, ResourceDownloadLog, Tables, get_resource, policy_public,
  policy_login, policy_whitelist, policy_member, policy_paid, resource_draft, resource_published,
  resource_offline,
}

abbrev insert_resource : Resource → Tables → Result ℕ × Tables
insert_resource r t =
    let resources' = insert r t.resources in
    (ok resources'.seq, record t { resources = resources' })

-- `downloads` starts at 0 in the table, not in the value that is returned.
unfoldable pub create_resource : Resource → Action Tables (ℕ × Resource)
create_resource r = do
  at ← now
  let r' = record r {
    status = if str_eq r.status "" then resource_draft else r.status;
    policy = if str_eq r.policy "" then policy_public else r.policy;
  }
  id ← statement (insert_resource (record r' { downloads = 0; created_at = at; updated_at = at }))
  made ← now
  pure (id, record r' { created_at = made; updated_at = made })

-- The WHERE clause of `ListResources`; `userID` is not used there.
abbrev pub resource_shown : String → String → Bool → ℕ × Resource → Bool
resource_shown status policy published_only (_, r) =
    (not published_only || str_eq r.status resource_published)
    && (matches policy r.policy && matches status r.status)

unfoldable pub list_resources :
    String → String → Bool → String → Action Tables (List (ℕ × Resource))
unfolding listing
list_resources status policy published_only user_id =
    query (λ t. ok (listing 200 (resource_shown status policy published_only) t.resources))

abbrev pub change_resource : ℕ → (Resource → Resource) → Tables → Tables
change_resource id f t = record t { resources = modify id f t.resources }

unfoldable pub update_resource : ℕ → Resource → Action Tables ⊤
update_resource id r = do
  at ← now
  update (
      change_resource id λ x. record x {
        name = r.name;
        type = r.type;
        description = r.description;
        cover = r.cover;
        status = r.status;
        policy = r.policy;
        price = r.price;
        updated_at = at;
      })

abbrev set_status : ℕ → String → Action Tables ⊤
set_status id status = do
  at ← now
  update (change_resource id (λ x. record x { status = status; updated_at = at }))

-- `ReviewResource`: the note is not stored.
unfoldable pub review_resource : ℕ → Bool → String → Action Tables ⊤
review_resource id approve note =
    set_status id (if approve then resource_published else resource_offline)

unfoldable pub offline_resource : ℕ → Action Tables ⊤
offline_resource id = set_status id resource_offline

unfoldable pub delete_resource : ℕ → Action Tables ⊤
delete_resource id = update (λ t. record t { resources = delete id t.resources })

abbrev pub is_entry : ℕ → String → ℕ × ResourceWhitelist → Bool
is_entry resource_id user_id (_, w) = (w.resource_id == resource_id) && str_eq w.user_id user_id

-- `SELECT COUNT(*) … WHERE resource_id=? AND user_id=?`
abbrev pub count_entries : ℕ → String → Tables → ℕ
count_entries resource_id user_id t = count_if (is_entry resource_id user_id) t.whitelist.rows

-- `INSERT OR IGNORE`: the pair is UNIQUE.
abbrev pub insert_entry : ℕ → String → Tables → Tables
insert_entry resource_id user_id t =
    if ltb 0 (count_entries resource_id user_id t) then t else record t {
      whitelist = insert (record { resource_id = resource_id; user_id = user_id }) t.whitelist;
    }

unfoldable pub add_whitelist : ℕ → String → Action Tables ⊤
add_whitelist resource_id user_id = update (insert_entry resource_id user_id)

abbrev pub delete_entry : ℕ → String → Tables → Tables
delete_entry resource_id user_id t = record t {
  whitelist = delete_where (is_entry resource_id user_id) t.whitelist;
}

unfoldable pub remove_whitelist : ℕ → String → Action Tables ⊤
remove_whitelist resource_id user_id = update (delete_entry resource_id user_id)

abbrev pub denied : Result ⊤
denied = err (message "resource access denied")

-- The COUNT of `CheckResourceAccess`: an error is dropped and leaves `n` at 0.
unfoldable pub whitelisted : ℕ → String → Action Tables Bool
whitelisted resource_id user_id c =
    let (r, c') = query (λ t. ok (count_entries resource_id user_id t)) c in
    (ok (elim r [ ok n ↦ ltb 0 n | err _ ↦ false ]), c')

abbrev deny : Action Tables ⊤
deny c = (denied, c)

abbrev by_whitelist : ℕ → String → Bool → Action Tables ⊤
by_whitelist resource_id user_id is_logged_in =
    if not is_logged_in
    then deny
    else (do listed ← whitelisted resource_id user_id; if listed then pure tt else deny)

-- The `switch` on the policy.
unfoldable pub by_policy : String → ℕ → String → Bool → Action Tables ⊤
unfolding whitelisted
by_policy policy resource_id user_id is_logged_in =
    if str_eq policy policy_public
    then pure tt
    else if str_eq policy policy_login
    then (if is_logged_in then pure tt else deny)
    else if str_eq policy policy_whitelist
        || (str_eq policy policy_member || str_eq policy policy_paid)
    then by_whitelist resource_id user_id is_logged_in
    else deny

unfoldable pub check_resource_access : ℕ → String → Bool → Action Tables ⊤
unfolding get_resource by_policy
check_resource_access resource_id user_id is_logged_in = do
  r ← get_resource resource_id
  (if not (str_eq r.status resource_published)
      then deny
      else by_policy r.policy resource_id user_id is_logged_in)

abbrev pub insert_log : ResourceDownloadLog → Tables → Tables
insert_log l t = record t { download_logs = insert l t.download_logs }

-- `LogDownload`: two statements outside any transaction.
unfoldable pub log_download : ℕ → String → String → Action Tables ⊤
log_download resource_id user_id ip = do
  at ← now
  update (
      insert_log
        (record { resource_id = resource_id; user_id = user_id; ip = ip; downloaded_at = at }))
  update (change_resource resource_id (λ x. record x { downloads = suc x.downloads }))

unfoldable pub list_download_logs : ℕ → Action Tables (List (ℕ × ResourceDownloadLog))
list_download_logs resource_id =
    query (λ t. ok (listing_all (λ e. e.1.resource_id == resource_id) t.download_logs))
