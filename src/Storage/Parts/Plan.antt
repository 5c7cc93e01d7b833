-- ===== src/Storage/Parts/Plan.antt =====
-- The size and the number of the parts, in Go's int64, and the parts themselves.
use first_golang.Prelude.{
  ℕ, zero, suc, ◌-◌, ◌*◌, ◌/◌, ◌%◌, ◌^◌, ltb, List, [], ◌∷◌, Option, none, some, if◌then◌else◌,
  ◌==◌,
}
use first_golang.Prelude.Int.{ℤ, pos, negsuc, ◌+ℤ◌, ltb_ℤ, sub_ℕ, pos_part}

abbrev pub min_part_size : ℕ
min_part_size = 5242880

abbrev pub max_part_count : ℕ
max_part_count = 10000

-- The range of int64.
abbrev pub half_range : ℕ
half_range = 2 ^ 63

abbrev pub full_range : ℕ
full_range = 2 ^ 64

-- A number as an int64, which wraps around.
abbrev pub int64 : ℤ → ℤ
int64 (pos x) =
    let y = x % full_range in if ltb y half_range then pos y else sub_ℕ 0 (full_range - y)
int64 (negsuc x) =
    let y = x % full_range in if ltb y half_range then negsuc y else pos (full_range - suc y)

-- Go's division, towards zero.
abbrev pub quot : ℤ → ℤ → ℤ
quot (pos a) (pos b) = pos (a / b)
quot (pos a) (negsuc b) = sub_ℕ 0 (a / suc b)
quot (negsuc a) (pos b) = sub_ℕ 0 (suc a / b)
quot (negsuc a) (negsuc b) = pos (suc a / suc b)

-- Division rounded up, as the code writes it.
unfoldable pub ceil_div : ℤ → ℤ → ℤ
ceil_div n s = quot (int64 (int64 (n +ℤ s) +ℤ negsuc 0)) s

-- A part size with the number of parts that it takes.
abbrev pub divided : ℤ → ℤ → ℤ × ℤ
divided file_size part_size = (part_size, ceil_div file_size part_size)

-- The size and the number of the parts.
unfoldable pub calculate_part_size : ℤ → ℤ × ℤ
calculate_part_size file_size =
    if ltb_ℤ file_size (pos min_part_size)
    then (file_size, pos 1)
    else if ltb_ℤ (pos max_part_count) (ceil_div file_size (pos min_part_size))
    then divided file_size (ceil_div file_size (pos max_part_count))
    else divided file_size (pos min_part_size)

pub record PartInfo : Type 0 where
  pub part_number : ℕ
  pub offset : ℕ
  pub size : ℕ

-- The loop from the part `i` on, with `n` parts to come; the last one is what remains of the file.
unfoldable pub parts_from : ℕ → ℕ → ℕ → ℕ → List PartInfo
parts_from file_size part_size i zero = []
parts_from file_size part_size i (suc n) =
    record {
      part_number = i;
      offset = i * part_size;
      size = if n == 0 then file_size - i * part_size else part_size;
    }
    ∷ parts_from file_size part_size (suc i) n

-- The parts of a plan; `make` panics on a count below zero.
abbrev pub laid_out : ℕ → ℤ × ℤ → Option (List PartInfo)
laid_out file_size (part_size, negsuc _) = none
laid_out file_size (part_size, pos n) = some (parts_from file_size (pos_part part_size) 0 n)

-- The parts of the plan, with their addresses and URLs left out. A plan of one part is uploaded by a
-- single request, which the one part here stands for.
unfoldable pub upload_parts : ℕ → Option (List PartInfo)
unfolding parts_from
upload_parts file_size = laid_out file_size (calculate_part_size (pos file_size))
