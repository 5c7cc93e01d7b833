-- ===== src/Files/Paths/Squeeze.antt =====
-- The loop that merges slashes ends.
use first_golang.Prelude.{
  ℕ, zero, suc, ◌≤◌, ◌<◌, ◌≡◌, refl, sym, ◌∙◌, true, false, List, [], ◌∷◌, ◌&&◌, ◌==◌, length,
  arith, if◌then◌else◌, inl, inr, Bool-cases, ap,
}
use first_golang.Files.Paths.{squeeze, has_double, squeeze_loop}

-- Each run of slashes as one slash: what the loop is for.
pub collapse : List ℕ → List ℕ
collapse [] = []
collapse (c ∷ []) = c ∷ []
collapse (c ∷ d ∷ s) =
    let rest = collapse (d ∷ s) in if c == b'/' && d == b'/' then rest else c ∷ rest

length-squeeze : (s : List ℕ) → length (squeeze s) ≤ length s
unfolding squeeze
length-squeeze [] = omega arith
length-squeeze (c ∷ []) = omega arith
length-squeeze (c ∷ d ∷ s) = ground (arith, length-squeeze s, length-squeeze (d ∷ s))

-- A round with two slashes in a row makes the text shorter.
squeeze-shorter : (s : List ℕ) → has_double s ≡ true → length (squeeze s) < length s
unfolding squeeze has_double
squeeze-shorter [] h = absurd (cc)
squeeze-shorter (c ∷ []) h = absurd (cc)
squeeze-shorter (c ∷ d ∷ s) h = ground (arith, length-squeeze s, squeeze-shorter (d ∷ s))

collapse-done : (s : List ℕ) → has_double s ≡ false → collapse s ≡ s
unfolding collapse has_double
collapse-done [] h = refl
collapse-done (c ∷ []) h = refl
collapse-done (c ∷ d ∷ s) h = ground (arith, collapse-done (d ∷ s))

-- A round keeps the first character.
squeeze-first : (c : ℕ) (s : List ℕ) → (t : List ℕ) × (squeeze (c ∷ s) ≡ c ∷ t)
unfolding squeeze
squeeze-first c [] = ([], refl)
squeeze-first c (d ∷ s) = elim (Bool-cases (c == b'/' && d == b'/')) [
  | inl b ↦ (squeeze s, ground (arith, b))
  | inr b ↦ (squeeze (d ∷ s), rw b refl)
]

collapse_under :
    (c : ℕ) (s : List ℕ)
    → collapse (squeeze s) ≡ collapse s
    → collapse (c ∷ squeeze s) ≡ collapse (c ∷ s)
unfolding collapse squeeze
collapse_under c [] h = refl
collapse_under c (d ∷ s) h =
    let (t, e) = squeeze-first d s in
    let k : collapse (d ∷ t) ≡ collapse (d ∷ s) = ap collapse (sym e) ∙ h in
    ap (λ z. collapse (c ∷ z)) e ∙ ap (λ z. if c == b'/' && d == b'/' then z else c ∷ z) k

collapse-double :
    (c d : ℕ) (s : List ℕ)
    → c == b'/' && d == b'/' ≡ true
    → collapse (c ∷ d ∷ s) ≡ collapse (b'/' ∷ s)
unfolding collapse
collapse-double c d s h = ground (arith, h)

collapse-squeeze : (s : List ℕ) → collapse (squeeze s) ≡ collapse s
unfolding squeeze collapse
collapse-squeeze [] = refl
collapse-squeeze (c ∷ []) = refl
collapse-squeeze (c ∷ d ∷ s) = elim (Bool-cases (c == b'/' && d == b'/')) [
  | inl b ↦
      ap (λ z. collapse (if z then b'/' ∷ squeeze s else c ∷ squeeze (d ∷ s))) b
      ∙ collapse_under b'/' s (collapse-squeeze s)
      ∙ sym (collapse-double c d s b)
  | inr b ↦
      ap (λ z. collapse (if z then b'/' ∷ squeeze s else c ∷ squeeze (d ∷ s))) b
      ∙ collapse_under c (d ∷ s) (collapse-squeeze (d ∷ s))
]

-- With a fuel of at least the length of the text, the loop that merges slashes ends with a text in
-- which no two slashes stand in a row: the text with every run of slashes made one.
pub squeeze_loop-collapse :
    (fuel : ℕ) (s : List ℕ)
    → length s ≤ fuel
    → (has_double (squeeze_loop fuel s) ≡ false) × (squeeze_loop fuel s ≡ collapse s)
unfolding squeeze_loop collapse
squeeze_loop-collapse zero [] h = (refl, refl)
squeeze_loop-collapse zero (c ∷ s) h = absurd (omega (arith, h))
squeeze_loop-collapse (suc fuel) s h = elim (Bool-cases (has_double s)) [
  | inl b ↦
      let (m, n) = squeeze_loop-collapse fuel (squeeze s) (omega (arith, h, squeeze-shorter s b)) in
      (rw b m, rw b (n ∙ collapse-squeeze s))
  | inr b ↦ (rw b (rw b refl), rw b (sym (collapse-done s b)))
]
