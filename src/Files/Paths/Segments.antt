-- ===== src/Files/Paths/Segments.antt =====
-- What an accepted path looks like.
use first_golang.Prelude.{
  ℕ, ◌≤◌, ◌<◌, ◌≡◌, ◌≢◌, refl, sym, ap, ◌∙◌, Bool, true, false, List, [], ◌∷◌, ◌++◌, ◌||◌, not,
  ◌==◌, length, arith, if◌then◌else◌, inl, inr, Bool-cases, All, any, ltb,
}
use first_golang.Files.Paths.{split_path, segments, is_bad_segment, validate_file_path}

none_first :
    {A : Type 0} (p : A → Bool) (x : A) (xs : List A)
    → any p (x ∷ xs) ≡ false
    → (p x ≡ false) × (any p xs ≡ false)
none_first p x xs h = ground (arith, h)

-- The segments with a slash between each two.
pub joined : List ℕ → List (List ℕ) → List ℕ
joined w [] = w
joined w (v ∷ vs) = w ++ b'/' ∷ joined v vs

abbrev pub is_separator : ℕ → Bool
is_separator c = c == b'/' || c == b'\\'

-- A name: not empty, not `.`, not `..`, and without separators.
abbrev pub IsName : List ℕ → Type 0
IsName w = (w ≢ []) × (w ≢ b'.' ∷ []) × (w ≢ b'.' ∷ b'.' ∷ []) × (any is_separator w ≡ false)

other : (v : List ℕ) → is_bad_segment v ≡ true → (w : List ℕ) → is_bad_segment w ≡ false → w ≢ v
other v b w h e = let k : true ≡ false = sym b ∙ ap is_bad_segment (sym e) ∙ h in absurd (cc)

segment-IsName : (w : List ℕ) → is_bad_segment w ≡ false → any is_separator w ≡ false → IsName w
segment-IsName w h k =
    (other [] refl w h, other (b'.' ∷ []) refl w h, other (b'.' ∷ b'.' ∷ []) refl w h, k)

joined-first : (c : ℕ) (w : List ℕ) (ws : List (List ℕ)) → joined (c ∷ w) ws ≡ c ∷ joined w ws
unfolding joined
joined-first c w [] = refl
joined-first c w (v ∷ vs) = refl

joined-split_path : (s : List ℕ) → let (w, ws) = split_path s in joined w ws ≡ s
unfolding split_path joined
joined-split_path [] = refl
joined-split_path (c ∷ s) = elim (Bool-cases (c == b'/')) [
  | inl b ↦ rw b (ground (arith, b, joined-split_path s))
  | inr b ↦
      rw b
        (joined-first c (split_path s).0 (split_path s).1 ∙ ap (λ z. c ∷ z) (joined-split_path s))
]

abbrev NoSeparator : List ℕ → Type 0
NoSeparator w = any is_separator w ≡ false

split_path-plain :
    (s : List ℕ) → any (λ c. c == b'\\') s ≡ false → All NoSeparator (segments (split_path s))
unfolding split_path
split_path-plain [] h = (refl, tt)
split_path-plain (c ∷ s) h =
    let (m, n) = none_first (λ c. c == b'\\') c s h in
    let (u, us) = split_path-plain s n in
    elim (Bool-cases (c == b'/')) [
      | inl b ↦ rw b (refl, (u, us))
      | inr b ↦ rw b (ground (arith, b, m, u), us)
    ]

All-IsName :
    (ws : List (List ℕ)) → any is_bad_segment ws ≡ false → All NoSeparator ws → All IsName ws
All-IsName [] h k = tt
All-IsName (w ∷ ws) h k =
    let (m, n) = none_first is_bad_segment w ws h in (segment-IsName w m k.0, All-IsName ws n k.1)

gates :
    (a b c d e f : Bool)
    → (if a
        then false
        else if b
        then false
        else if c
        then false
        else if d
        then false
        else if e
        then false
        else not f)
      ≡ true
    → (a ≡ false) × (b ≡ false) × (d ≡ false) × (f ≡ false)
gates a b c d e f h = ground (arith, h)

-- An accepted path has between 1 and 1024 bytes, and is made of names with a slash between each two:
-- none of them is empty, `.` or `..`, and none holds a slash or a backslash.
pub validate_file_path-names :
    (path : List ℕ)
    → validate_file_path path ≡ true
    → (0 < length path)
      × (length path ≤ 1024)
      × ((w : List ℕ) × (ws : List (List ℕ)) × All IsName (w ∷ ws) × (path ≡ joined w ws))
unfolding validate_file_path
validate_file_path-names path h =
    let (a, b, d, e) =
      gates (length path == 0) (ltb 1024 (length path)) _ (any (λ c. c == b'\\') path) _
        (any is_bad_segment (segments (split_path path))) h in
    let (w, ws) = split_path path in
    (
      ground (arith, a),
      ground (arith, b),
      (w, ws, All-IsName (w ∷ ws) e (split_path-plain path d), sym (joined-split_path path)),
    )
