-- ===== src/Storage/Parts/Tests.antt =====
-- A file of 12 MB takes three parts, and the largest int64 breaks the plan.
use first_golang.Prelude.{ℕ, ◌≡◌, ◌≤◌, refl, length, some, none, List, arith}
use first_golang.Prelude.Int.{pos, negsuc, ◌+ℤ◌, ◌≤ℤ◌}
use first_golang.Storage.Parts.Plan.{PartInfo, ceil_div, calculate_part_size, upload_parts}
use first_golang.Storage.Parts.Tiles.{Tiling, upload_parts_tile, upload_parts_panics}

twelve : calculate_part_size (pos 12000000) ≡ (pos 5242880, pos 3)
unfolding calculate_part_size ceil_div ◌+ℤ◌
twelve = refl

-- A file that takes larger parts.
large : calculate_part_size (pos 60000000000) ≡ (pos 6000000, pos 10000)
unfolding calculate_part_size ceil_div ◌+ℤ◌
large = refl

upload_parts_tile_example :
    (parts : List PartInfo) × (upload_parts 12000000 ≡ some parts)
    × Tiling 0 parts 12000000
    × (5242880 ≤ 12000000
        → (pos 5242880 ≤ℤ (calculate_part_size (pos 12000000)).0)
          × (length parts ≤ 10000)
          × (pos (length parts) ≡ (calculate_part_size (pos 12000000)).1))
upload_parts_tile_example = upload_parts_tile 12000000 (omega arith)

upload_parts_panics_example :
    (k : ℕ) × ((calculate_part_size (pos 9223372036854775807)).1 ≡ negsuc k)
    × (upload_parts 9223372036854775807 ≡ none)
upload_parts_panics_example = upload_parts_panics 9223372036854775807 (omega arith) (omega arith)
