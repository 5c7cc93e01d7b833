-- ===== src/Biz/Resource/Tests.antt =====
-- Resources on a small centre: a public one, and a paid one that alice may open.
use first_golang.Prelude.{◌≡◌, ◌≢◌, ◌↔◌, refl, String, some, true, [], ◌∷◌, arith, str_eq_iff}
use first_golang.Prelude.Int.{pos}
use first_golang.Sql.Table.{select}
use first_golang.Sql.Exec.{Conn, ok, never, calm}
use first_golang.Biz.Resource.Defs.{Resource, Tables, get_resource}
use first_golang.Biz.Resource.Ops.{
  remove_whitelist, count_entries, check_resource_access, by_policy, whitelisted, log_download,
}
use first_golang.Biz.Resource.Access.{Permits, access_sound, access_exact, remove_denies}
use first_golang.Biz.Resource.Downloads.{logged, downloads_counted}

abbrev resource : String → String → Resource
resource policy status = record {
  name = "handbook";
  type = "文档";
  description = "";
  cover = "";
  file_id = "f1";
  owner_id = "owner";
  status = status;
  policy = policy;
  price = pos 100;
  downloads = 0;
  created_at = 10;
  updated_at = 10;
}

abbrev centre : Conn Tables
centre = record {
  tables = record {
    resources = record {
      rows = (1, resource "public" "draft") ∷ (2, resource "paid" "published") ∷ [];
      seq = 2;
    };
    whitelist = record { rows = (1, record { resource_id = 2; user_id = "alice" }) ∷ []; seq = 1 };
    download_logs = record { rows = []; seq = 0 };
  };
  tick = 0;
  fails = never;
  clock = λ n. n;
  nonce = λ _. "7";
}

access_sound_example :
    (r : Resource) × (select 2 centre.tables.resources ≡ some r)
    × Permits r true (count_entries 2 "alice" centre.tables)
unfolding check_resource_access get_resource by_policy whitelisted select
access_sound_example = access_sound 2 "alice" true centre refl

access_exact_example :
    ((check_resource_access 2 "bob" true (calm centre)).0 ≡ ok tt)
    ↔ Permits (resource "paid" "published") true (count_entries 2 "bob" centre.tables)
unfolding select
access_exact_example = access_exact 2 "bob" true (resource "paid" "published") centre refl

remove_denies_example :
    (check_resource_access 2 "alice" true (remove_whitelist 2 "alice" centre).1).0 ≢ ok tt
unfolding select remove_whitelist
remove_denies_example =
    remove_denies 2 "alice" true (resource "paid" "published") centre refl
      (ground (arith, str_eq_iff "paid" "public")) (ground (arith, str_eq_iff "paid" "login")) refl

downloads_counted_example :
    (x : Resource) × (select 2 (log_download 2 "alice" "::1" centre).1.tables.resources ≡ some x)
    × (x.downloads ≡ logged 2 (log_download 2 "alice" "::1" centre).1.tables)
unfolding select log_download
downloads_counted_example =
    downloads_counted 2 2 "alice" "::1" (resource "paid" "published") centre refl refl refl
