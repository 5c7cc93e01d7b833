-- ===== src/Files/Paths.antt =====
-- Paths of files and of directories (normalizeDirPath of internal/handler/file.go, validateFilePath of
-- internal/handler/upload_util.go), as lists of bytes.
mod Squeeze
mod Segments
mod Tests
use first_golang.Prelude.{
  ℕ, zero, suc, Bool, true, false, List, [], ◌∷◌, ◌++◌, ◌&&◌, ◌||◌, not, ◌==◌, ltb, length, map,
  any, all, if◌then◌else◌,
}

-- `strings.ReplaceAll (s, "//", "/")`
pub squeeze : List ℕ → List ℕ
squeeze [] = []
squeeze (c ∷ []) = c ∷ []
squeeze (c ∷ d ∷ s) =
    let short = b'/' ∷ squeeze s in
    let rest = squeeze (d ∷ s) in if c == b'/' && d == b'/' then short else c ∷ rest

-- `strings.Contains (s, "//")`
pub has_double : List ℕ → Bool
has_double [] = false
has_double (c ∷ []) = false
has_double (c ∷ d ∷ s) = (c == b'/' && d == b'/') || has_double (d ∷ s)

-- The loop of `normalizeDirPath`, on fuel.
pub squeeze_loop : ℕ → List ℕ → List ℕ
unfolding squeeze has_double
squeeze_loop zero s = s
squeeze_loop (suc fuel) s =
    let rest = squeeze_loop fuel (squeeze s) in if has_double s then rest else s

abbrev pub slashed : ℕ → ℕ
slashed c = if c == b'\\' then b'/' else c

abbrev pub without_first_slash : List ℕ → List ℕ
without_first_slash [] = []
without_first_slash (c ∷ s) = if c == b'/' then s else c ∷ s

abbrev pub ends_with_slash : List ℕ → Bool
ends_with_slash [] = false
ends_with_slash (c ∷ []) = c == b'/'
ends_with_slash (c ∷ d ∷ s) = ends_with_slash (d ∷ s)

abbrev pub with_last_slash : List ℕ → List ℕ
with_last_slash [] = []
with_last_slash (c ∷ s) = if ends_with_slash (c ∷ s) then c ∷ s else (c ∷ s) ++ b'/' ∷ []

-- `normalizeDirPath`, of a text without white space around it. The fuel is the length of the text.
unfoldable pub normalize_dir_path : List ℕ → List ℕ
unfolding squeeze_loop
normalize_dir_path raw =
    let s : List ℕ = without_first_slash (map slashed raw) in
    with_last_slash (squeeze_loop (length s) s)

-- `strings.Split (s, "/")`: the first segment and the others.
abbrev add_first : ℕ → List ℕ × List (List ℕ) → List ℕ × List (List ℕ)
add_first c (w, ws) = (c ∷ w, ws)

abbrev start_segment : List ℕ × List (List ℕ) → List ℕ × List (List ℕ)
start_segment (w, ws) = ([], w ∷ ws)

pub split_path : List ℕ → List ℕ × List (List ℕ)
split_path [] = ([], [])
split_path (c ∷ s) =
    let rest = split_path s in if c == b'/' then start_segment rest else add_first c rest

abbrev pub segments : List ℕ × List (List ℕ) → List (List ℕ)
segments (w, ws) = w ∷ ws

-- Empty, `.` or `..`
abbrev pub is_bad_segment : List ℕ → Bool
is_bad_segment [] = true
is_bad_segment (c ∷ []) = c == b'.'
is_bad_segment (c ∷ d ∷ []) = c == b'.' && d == b'.'
is_bad_segment (c ∷ d ∷ e ∷ s) = false

abbrev begins_with_slash : List ℕ → Bool
begins_with_slash [] = false
begins_with_slash (c ∷ s) = c == b'/'

-- `validateFilePath`: is the error nil?
unfoldable pub validate_file_path : List ℕ → Bool
unfolding has_double split_path
validate_file_path filename =
    if length filename == 0
    then false
    else if ltb 1024 (length filename)
    then false
    else if begins_with_slash filename
    then false
    else if any (λ c. c == b'\\') filename
    then false
    else if has_double filename
    then false
    else not (any is_bad_segment (segments (split_path filename)))
