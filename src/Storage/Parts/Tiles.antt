-- ===== src/Storage/Parts/Tiles.antt =====
-- How the parts of an upload lie in the file, and the limits of the object store.
use first_golang.Prelude.{
  ℕ, zero, suc, ◌+◌, ◌-◌, ◌*◌, ◌/◌, ◌<◌, ◌≤◌, ◌≡◌, refl, sym, ap, ◌∙◌, ltb, some, none, false, List,
  [], ◌∷◌, ◌==◌, if◌then◌else◌, arith, inl, inr, Bool-cases, length,
}
use first_golang.Prelude.Int.{pos, negsuc, ◌+ℤ◌, ◌≤ℤ◌}
use native.Mathlib.Nat.{mod-lt, div-add-mod', lt_of_mul-lt-mul_right}
use Prim.Native.Nat.mul
use first_golang.Storage.Parts.Plan.{
  half_range, full_range, laid_out, PartInfo, calculate_part_size, parts_from, upload_parts,
  ceil_div, min_part_size, max_part_count,
}

-- Division rounded up, and the plan, where nothing wraps around.
abbrev rounded_up : ℕ → ℕ → ℕ
rounded_up n s = (n + s - 1) / s

-- A ten-thousandth of the size, rounded up.
abbrev pub larger : ℕ → ℕ
larger n = rounded_up n max_part_count

abbrev planned : ℕ → ℕ × ℕ
planned n =
    if ltb n min_part_size
    then (n, 1)
    else if ltb max_part_count (rounded_up n min_part_size)
    then (larger n, rounded_up n (larger n))
    else (min_part_size, rounded_up n min_part_size)

-- Rounded up, the quotient covers the number.
ceil-covers : (n s : ℕ) → 0 < s → n ≤ rounded_up n s * s
ceil-covers n s p = omega (arith, div-add-mod' (n + s - 1) s, mod-lt (n + s - 1) p)

-- One part fewer does not cover it.
ceil-tight : (n s k : ℕ) → 0 < s → 0 < n → rounded_up n s ≡ suc k → k * s < n
ceil-tight n s k p q e =
    omega (arith, div-add-mod' (n + s - 1) s, mod-lt (n + s - 1) p, ap (λ c. c * s) e, mul.suc k s)

-- The parts follow one another without gap or overlap, from the first number to the second.
abbrev pub Tiling : ℕ → List PartInfo → ℕ → Type 0
Tiling from [] to = from ≡ to
Tiling from (p ∷ ps) to = (p.offset ≡ from) × Tiling (from + p.size) ps to

parts-Tiling :
    (n s i r from : ℕ) → from ≡ i * s → i * s + r * s ≤ n → Tiling from (parts_from n s i (suc r)) n
unfolding parts_from
parts-Tiling n s i zero from e h = (sym e, omega arith)
parts-Tiling n s i (suc r) from e h =
    let more : (suc r == 0) ≡ false = ground arith in
    rw more (
      sym e,
      parts-Tiling n s (suc i) r (from + s) (omega (arith, mul.suc i s))
          (omega (arith, mul.suc i s, mul.suc r s)),
    )

ceil-Tiling : (n s c : ℕ) → 0 < s → 0 < n → rounded_up n s ≡ c → Tiling 0 (parts_from n s 0 c) n
ceil-Tiling n s zero p q e =
    absurd (omega (arith, ceil-covers n s p, ap (λ c. c * s) e, mul.zero s))
ceil-Tiling n s (suc k) p q e =
    parts-Tiling n s 0 k 0 (sym (mul.zero s)) (omega (arith, ceil-tight n s k p q e, mul.zero s))

ceil-le : (n s c : ℕ) → 0 < s → 0 < n → n ≤ 10000 * s → rounded_up n s ≡ c → c ≤ 10000
ceil-le n s zero p q h e = omega arith
ceil-le n s (suc k) p q h e = lt_of_mul-lt-mul_right s (omega (arith, ceil-tight n s k p q e))

large_enough : (n : ℕ) → n ≤ 10000 * ((n + 10000 - 1) / 10000)
large_enough n = omega arith

large_min : (n : ℕ) → 10000 < (n + 5242880 - 1) / 5242880 → 5242880 ≤ (n + 10000 - 1) / 10000
large_min n h = omega arith

parts-length : (n s i c : ℕ) → length (parts_from n s i c) ≡ c
unfolding parts_from
parts-length n s i zero = refl
parts-length n s i (suc c) = ap suc (parts-length n s (suc i) c)

-- The plan of an upload, on each branch: how large a part is, and that there are not too many.
plan_limits : (n : ℕ) → 5242880 ≤ n → (5242880 ≤ (planned n).0) × ((planned n).1 ≤ 10000)
plan_limits n h = elim (Bool-cases (ltb max_part_count (rounded_up n min_part_size))) [
  | inl e ↦
      let min : 5242880 ≤ larger n = large_min n (ground arith) in
      let count =
        ceil-le n (larger n) (rounded_up n (larger n)) (omega arith) (omega arith) (large_enough n)
          refl in
      (ground arith, ground arith)
  | inr e ↦ (ground arith, ground arith)
]

plan-Tiling : (n : ℕ) → Tiling 0 (parts_from n (planned n).0 0 (planned n).1) n
plan-Tiling n = elim (Bool-cases (ltb n min_part_size)) [
  | inl e ↦ rw e (parts-Tiling n n 0 0 0 (sym (mul.zero n)) (omega (arith, mul.zero n)))
  | inr e ↦
      let big : 5242880 ≤ n = ground arith in
      elim (Bool-cases (ltb max_part_count (rounded_up n min_part_size))) [
        | inl f ↦
            let min : 5242880 ≤ larger n = large_min n (ground arith) in
            rw (e, f)
              (ceil-Tiling n (larger n) (rounded_up n (larger n)) (omega arith) (omega arith) refl)
        | inr f ↦
            rw (e, f)
              (ceil-Tiling n min_part_size (rounded_up n min_part_size) (omega arith) (omega arith)
                refl)
      ]
]

-- The wrap-around of a sum that is exactly 2 ^ 63 is undone when one is taken off.
ceil_div-exact :
    (n s : ℕ) → 0 < s → n + s ≤ half_range → ceil_div (pos n) (pos s) ≡ pos (rounded_up n s)
unfolding ceil_div ◌+ℤ◌
ceil_div-exact n s p h = ground arith

quotient-positive : (a s : ℕ) → 0 < s → s ≤ a → 0 < a / s
quotient-positive a s p h = elim (Bool-cases (a / s == 0)) [
  | inl e ↦
      let z : a / s ≡ 0 = ground arith in
      let none_left : a / s * s ≡ 0 = ap (λ q. q * s) z ∙ mul.zero s in
      absurd (omega (arith, div-add-mod' a s, mod-lt a p))
  | inr e ↦ ground arith
]

-- A larger sum makes the quotient negative.
ceil_div-wrapped :
    (n s : ℕ)
    → n < half_range
    → 2 * s ≤ n
    → 0 < s
    → half_range < n + s
    → (k : ℕ) × (ceil_div (pos n) (pos s) ≡ negsuc k)
unfolding ceil_div ◌+ℤ◌
ceil_div-wrapped n s h b p k =
    let left = full_range + 1 - (n + s) in
    let least = quotient-positive left s p (omega arith) in (left / s - 1, ground arith)

planned-exact :
    (n : ℕ)
    → n + larger n ≤ half_range
    → calculate_part_size (pos n) ≡ (pos (planned n).0, pos (planned n).1)
unfolding calculate_part_size
planned-exact n h = elim (Bool-cases (ltb n min_part_size)) [
  | inl e ↦ ground arith
  | inr e ↦
      let first = ceil_div-exact n min_part_size (omega arith) (omega arith) in
      let second = ceil_div-exact n max_part_count (omega arith) (omega arith) in
      elim (Bool-cases (ltb max_part_count (rounded_up n min_part_size))) [
        | inl f ↦
            let last = ceil_div-exact n (larger n) (ground arith) (omega arith) in ground arith
        | inr f ↦ ground arith
      ]
]

-- Where the size of a file and a ten-thousandth of it, rounded up, are at most 2 ^ 63 together, there
-- is a plan, in which the parts follow one another from 0 to the end of the file, without gap or
-- overlap. For a file of at least 5 MB, the size of a part is at least 5 MB and there are at most
-- 10000 parts, as many as planned.
pub upload_parts_tile :
    (n : ℕ)
    → n + larger n ≤ half_range
    → (parts : List PartInfo) × (upload_parts n ≡ some parts)
      × Tiling 0 parts n
      × (5242880 ≤ n
          → (pos 5242880 ≤ℤ (calculate_part_size (pos n)).0)
            × (length parts ≤ 10000)
            × (pos (length parts) ≡ (calculate_part_size (pos n)).1))
unfolding upload_parts
upload_parts_tile n h =
    let plan = planned n in
    let exact = planned-exact n h in
    let count = parts-length n plan.0 0 plan.1 in
    (
      parts_from n plan.0 0 plan.1,
      ap (laid_out n) exact,
      plan-Tiling n,
      λ k.
          let (size, few) = plan_limits n k in
          rw exact (omega (arith, size), omega (arith, count), ap pos count),
    )

-- Where the size of a file is less than 2 ^ 63, but together with a ten-thousandth of it, rounded up,
-- more than 2 ^ 63, the number of parts is below zero and their list cannot be made.
pub upload_parts_panics :
    (n : ℕ)
    → n < half_range
    → half_range < n + larger n
    → (k : ℕ) × ((calculate_part_size (pos n)).1 ≡ negsuc k) × (upload_parts n ≡ none)
unfolding upload_parts calculate_part_size
upload_parts_panics n h k = elim (Bool-cases (ltb half_range (n + min_part_size))) [
  | inl e ↦
      let (j, e) = ceil_div-wrapped n min_part_size h (omega arith) (omega arith) (ground arith) in
      (j, ground arith, ground arith)
  | inr e ↦
      let first = ceil_div-exact n min_part_size (omega arith) (ground arith) in
      let second = ceil_div-exact n max_part_count (omega arith) (ground arith) in
      let (j, last) = ceil_div-wrapped n (larger n) h (omega arith) (omega arith) k in
      (j, ground arith, ground arith)
]
