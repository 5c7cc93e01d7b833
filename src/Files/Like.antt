-- ===== src/Files/Like.antt =====
-- The LIKE patterns of internal/store/file_repo.go: a prefix with its wildcards escaped, then `%`.
-- Texts are lists of the codes of their characters. Which characters LIKE takes for equal is the
-- collation's: an argument.
use Prim.Native.Char.{code}
use first_golang.Prelude.{
  ℕ, String, Bool, true, false, ◌≡◌, refl, ap, inl, inr, Bool-cases, List, [], ◌∷◌, ◌++◌, ◌||◌,
  ◌&&◌, ◌==◌, arith, if◌then◌else◌,
}

abbrev pub codes : String → List ℕ
codes String.[] = []
codes (String.◌∷◌ c s) = code c ∷ codes s

-- Does the byte need the escape?
abbrev is_special : ℕ → Bool
is_special c = (c == b'%') || ((c == b'_') || (c == b'|'))

pub escape_like_prefix : List ℕ → List ℕ
escape_like_prefix [] = []
escape_like_prefix (c ∷ s) =
    let rest = escape_like_prefix s in if is_special c then b'|' ∷ c ∷ rest else c ∷ rest

-- The parts of a pattern with `ESCAPE '|'`.
pub data Part : Type 0 where
  exactly : ℕ → Part
  one any_number : Part

pub parts : List ℕ → List Part
parts [] = []
parts (c ∷ []) = (if c == b'%' then any_number else if c == b'_' then one else exactly c) ∷ []
parts (c ∷ d ∷ s) =
    let escaped = exactly d ∷ parts s in
    let rest = parts (d ∷ s) in
    if c == b'|'
    then escaped
    else if c == b'%'
    then any_number ∷ rest
    else if c == b'_'
    then one ∷ rest
    else exactly c ∷ rest

-- Some end of the text passes the test.
abbrev some_end : (List ℕ → Bool) → List ℕ → Bool
some_end p [] = p []
some_end p (x ∷ xs) = p (x ∷ xs) || some_end p xs

parts_plain :
    (c : ℕ) (s : List ℕ)
    → is_special c ≡ false
    → parts (c ∷ (s ++ b'%' ∷ [])) ≡ exactly c ∷ parts (s ++ b'%' ∷ [])
unfolding parts
parts_plain c [] h = ground arith
parts_plain c (d ∷ s) h = ground arith

-- Each character of the prefix stands for itself.
parts-escape :
    (c : ℕ) (s : List ℕ)
    → parts (escape_like_prefix (c ∷ s) ++ b'%' ∷ [])
      ≡ exactly c ∷ parts (escape_like_prefix s ++ b'%' ∷ [])
unfolding parts escape_like_prefix
parts-escape c s = elim (Bool-cases (is_special c)) [
  | inl e ↦ rw e refl
  | inr e ↦ rw e (parts_plain c (escape_like_prefix s) e)
]

module _ (same : ℕ → ℕ → Bool) where
  pub matches_parts : List Part → List ℕ → Bool
  matches_parts [] [] = true
  matches_parts [] (x ∷ xs) = false
  matches_parts (any_number ∷ ps) t = some_end (matches_parts ps) t
  matches_parts (one ∷ ps) [] = false
  matches_parts (one ∷ ps) (x ∷ xs) = matches_parts ps xs
  matches_parts (exactly c ∷ ps) [] = false
  matches_parts (exactly c ∷ ps) (x ∷ xs) = same c x && matches_parts ps xs

  -- `filename LIKE pattern ESCAPE '|'`
  pub like : List ℕ → List ℕ → Bool
  like pattern t = matches_parts (parts pattern) t

  -- The text begins with the prefix, up to the collation.
  pub begins : List ℕ → List ℕ → Bool
  begins [] t = true
  begins (c ∷ s) [] = false
  begins (c ∷ s) (x ∷ xs) = same c x && begins s xs

  -- The condition on the file name for a prefix.
  unfoldable pub like_prefix : List ℕ → List ℕ → Bool
  unfolding escape_like_prefix parts matches_parts like
  like_prefix prefix t = like (escape_like_prefix prefix ++ b'%' ∷ []) t

  any_end : (t : List ℕ) → some_end (matches_parts []) t ≡ true
  unfolding matches_parts
  any_end [] = refl
  any_end (x ∷ xs) = ground (arith, any_end xs)

  -- The condition with which the files under a prefix are selected accepts exactly the names that begin
  -- with that prefix, up to the collation of LIKE: no `%`, `_` or `|` in the prefix is taken for a
  -- wildcard.
  pub like_prefix-begins : (prefix t : List ℕ) → like_prefix prefix t ≡ begins prefix t
  unfolding like_prefix begins
  like_prefix-begins [] t = any_end t
  like_prefix-begins (c ∷ s) [] = rw (parts-escape c s) refl
  like_prefix-begins (c ∷ s) (x ∷ xs) =
      rw (parts-escape c s) (ap (λ z. same c x && z) (like_prefix-begins s xs))
