-- ===== src/Files/Paths/Tests.antt =====
-- Paths of a few bytes.
use first_golang.Prelude.{ℕ, ◌≡◌, refl, false, List, [], ◌∷◌, All, ◌≤◌, ◌<◌, length, arith}
use first_golang.Files.Paths.{has_double, squeeze_loop, validate_file_path}
use first_golang.Files.Paths.Squeeze.{collapse, squeeze_loop-collapse}
use first_golang.Files.Paths.Segments.{IsName, joined, validate_file_path-names}

-- `a////b//c`
abbrev slashes : List ℕ
slashes = b'a' ∷ b'/' ∷ b'/' ∷ b'/' ∷ b'/' ∷ b'b' ∷ b'/' ∷ b'/' ∷ b'c' ∷ []

squeeze_loop-collapse_example :
    (has_double (squeeze_loop 9 slashes) ≡ false) × (squeeze_loop 9 slashes ≡ collapse slashes)
squeeze_loop-collapse_example = squeeze_loop-collapse 9 slashes (omega arith)

-- `a/.b/c`
abbrev nested : List ℕ
nested = b'a' ∷ b'/' ∷ b'.' ∷ b'b' ∷ b'/' ∷ b'c' ∷ []

validate_file_path-names_example :
    (0 < length nested)
    × (length nested ≤ 1024)
    × ((w : List ℕ) × (ws : List (List ℕ)) × All IsName (w ∷ ws) × (nested ≡ joined w ws))
unfolding validate_file_path
validate_file_path-names_example = validate_file_path-names nested refl
