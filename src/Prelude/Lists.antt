-- ===== src/Prelude/Lists.antt =====
-- Lists measured by native numbers, and the predicates on lists that the components share.
use Prim.Native.Nat.{ℕ, suc, ◌+◌, ◌<◌}
use mathlib.Core.Path.{◌≡◌, refl}
use mathlib.Core.Logic.{◌⊎◌, inl, inr}
use mathlib.Core.Bool.{Bool, true, false}
use mathlib.Core.List.{List, [], ◌∷◌, ◌++◌}
use native.Mathlib.Omega.{arith}

module _ {ℓ} {A : Type ℓ} where
  abbrev pub length : List A → ℕ
  length [] = 0
  length (x ∷ xs) = suc (length xs)

  pub length-append : (xs ys : List A) → length (xs ++ ys) ≡ length xs + length ys
  length-append [] ys = omega arith
  length-append (x ∷ xs) ys = omega (arith, length-append xs ys)

  -- The library's `all` and `any` do not run in a test.
  abbrev pub all : (A → Bool) → List A → Bool
  all p [] = true
  all p (x ∷ xs) = elim (p x) [ true ↦ all p xs | false ↦ false ]

  abbrev pub any : (A → Bool) → List A → Bool
  any p [] = false
  any p (x ∷ xs) = elim (p x) [ true ↦ true | false ↦ any p xs ]

  abbrev pub count_if : (A → Bool) → List A → ℕ
  count_if p [] = 0
  count_if p (x ∷ xs) = let n = count_if p xs in elim (p x) [ true ↦ suc n | false ↦ n ]

-- `f` summed over the list.
abbrev pub sum_over : {A : Type 0} → (A → ℕ) → List A → ℕ
sum_over f [] = 0
sum_over f (x ∷ xs) = f x + sum_over f xs

abbrev pub Elem : {A : Type 0} → A → List A → Type 0
Elem e [] = ⊥
Elem e (x ∷ xs) = (x ≡ e) ⊎ Elem e xs

module _ {A : Type 0} where
  split :
      (f : A → ℕ) (x : A) (xs : List A)
      → 0 < (f x + sum_over f xs)
      → (0 < f x) ⊎ (0 < sum_over f xs)
  split f x xs h = ground arith

  pub sum_over-positive :
      (f : A → ℕ) (xs : List A) → 0 < sum_over f xs → (x : A) × Elem x xs × (0 < f x)
  sum_over-positive f [] h = absurd (omega arith)
  sum_over-positive f (x ∷ xs) h = elim (split f x xs h) [
    | inl p ↦ (x, inl refl, p)
    | inr p ↦ let (y, m, q) = sum_over-positive f xs p in (y, inr m, q)
  ]

  pub positive-sum_over :
      (f : A → ℕ) (xs : List A) (x : A) → Elem x xs → 0 < f x → 0 < sum_over f xs
  positive-sum_over f [] x m p = absurd m
  positive-sum_over f (y ∷ ys) x (inl q) p = let r : 0 < f y = rw q p in omega arith
  positive-sum_over f (y ∷ ys) x (inr m) p = let r = positive-sum_over f ys x m p in omega arith

abbrev pub All {ℓ κ} : {A : Type ℓ} → (A → Type κ) → List A → Type κ
All P [] = Unit
All P (x ∷ xs) = P x × All P xs
