-- ===== src/Storage/Router/Tests.antt =====
-- Two disks side by side: one as the local backend, one in the place of S3.
use first_golang.Prelude.{String, ◌≡◌, ◌&◌, none, some, arith, [], refl}
use first_golang.Sql.Exec.{Conn, ok, err, Error, never}
use first_golang.Storage.Backend.{Storage, IsStorage}
use first_golang.Storage.Local.{Disk, local_storage}
use first_golang.Storage.Local.Laws.{local_storage-IsStorage, local_storage-IsWritable}
use first_golang.Storage.Pair.{left, right, side_by_side, left-IsWritable}
use first_golang.Storage.Router.{
  Router, router_storage, prefix_storage_path, backend_and_path, backend_for, s3_prefix,
  router_read_file, router_file_size, router_hash_file, router_copy_file, router_delete_file,
}
use first_golang.Storage.Router.Laws.{AreApart, all_paths}
use first_golang.Storage.Router.Fronts.{Fronts, router-Fronts}
use first_golang.Storage.Router.Refines.{router_storage-IsStorage}
use first_golang.Storage.Router.Routes.{prefix_storage_path_routes, unavailable_s3}

-- A digest that is easy to read.
abbrev pub tagged : String → String
tagged x = "sha256 of " & x

abbrev pub near : Storage (Disk × Disk)
near = left 0 (local_storage "/data" tagged)

abbrev far : Storage (Disk × Disk)
far = right 1 (local_storage "/bucket" tagged)

abbrev pub front : Storage (Disk × Disk)
front = all_paths near far

near-far : AreApart near far
unfolding local_storage
near-far =
    side_by_side (local_storage "/data" tagged) (local_storage "/bucket" tagged)
      (local_storage-IsStorage "/data" tagged) (local_storage-IsStorage "/bucket" tagged)
      (λ x. refl) 0 1 (λ e. omega (arith, e))

pub front-near : Fronts front near
unfolding local_storage
front-near =
    router-Fronts near far near-far
      (left-IsWritable 0 (local_storage "/data" tagged) (local_storage-IsWritable "/data" tagged))
      (λ raw. refl) (λ raw text c q. refl)

abbrev routes : Router (Disk × Disk)
routes = record { local = near; s3 = some far }

abbrev quiet : Conn (Disk × Disk)
quiet = record { tables = ([], []); tick = 0; fails = never; clock = λ n. n; nonce = λ n. "" }

router_storage-IsStorage_example : IsStorage (router_storage routes)
router_storage-IsStorage_example = router_storage-IsStorage near far near-far

prefix_storage_path_routes_example :
    backend_and_path routes (prefix_storage_path "s3" "ab/cd/notes.txt")
    ≡ (some (backend_for routes "s3"), "ab/cd/notes.txt")
prefix_storage_path_routes_example =
    prefix_storage_path_routes routes "s3" "ab/cd/notes.txt" (λ _ e. absurd (cc))

abbrev lone : Router (Disk × Disk)
lone = record { local = near; s3 = none }

unavailable_s3_example :
    let path = s3_prefix & "ab/cd/notes.txt" in
    ((e : Error) × (router_read_file lone path 3 quiet ≡ (err e, quiet)))
    × ((e : Error) × (router_file_size lone path quiet ≡ (err e, quiet)))
    × ((e : Error) × (router_hash_file lone path quiet ≡ (err e, quiet)))
    × ((e : Error) × (router_copy_file lone path "local:ab/x.txt" quiet ≡ (err e, quiet)))
    × ((e : Error) × (router_copy_file lone "local:ab/x.txt" path quiet ≡ (err e, quiet)))
    × (router_delete_file lone path quiet ≡ (ok tt, quiet))
unavailable_s3_example = unavailable_s3 near "ab/cd/notes.txt" "local:ab/x.txt" 3 quiet
