-- ===== src/Sql/Rows.antt =====
-- The statements on a table whose key is one of its columns: the rows, in the order in which they
-- were inserted.
use first_golang.Prelude.{
  ℕ, ◌≡◌, refl, sym, Bool, true, false, List, [], ◌∷◌, ◌++◌, Option, none, some, ◌⊎◌, inl, inr,
  arith, leb, Elem, count_if, if◌then◌else◌,
}

module _ {R : Type 0} where
  -- `SELECT … WHERE p`
  abbrev pub rows_where : (R → Bool) → List R → List R
  rows_where p [] = []
  rows_where p (x ∷ xs) = let rest = rows_where p xs in if p x then x ∷ rest else rest

  -- `SELECT … WHERE p` of a single row
  abbrev pub first_where : (R → Bool) → List R → Option R
  first_where p [] = none
  first_where p (x ∷ xs) = let rest = first_where p xs in if p x then some x else rest

  -- `UPDATE … SET f WHERE p`
  abbrev pub update_where : (R → Bool) → (R → R) → List R → List R
  update_where p f [] = []
  update_where p f (x ∷ xs) = (if p x then f x else x) ∷ update_where p f xs

  -- `DELETE … WHERE p`
  abbrev pub remove_where : (R → Bool) → List R → List R
  remove_where p [] = []
  remove_where p (x ∷ xs) = let rest = remove_where p xs in if p x then rest else x ∷ rest

  -- Before the first row that is not later.
  abbrev put_in : (R → ℕ) → R → List R → List R
  put_in key e [] = e ∷ []
  put_in key e (x ∷ xs) =
      let rest = put_in key e xs in if leb (key x) (key e) then e ∷ x ∷ xs else x ∷ rest

  -- `ORDER BY key DESC`
  abbrev pub by_desc : (R → ℕ) → List R → List R
  by_desc key [] = []
  by_desc key (x ∷ xs) = put_in key x (by_desc key xs)

  -- `LIMIT 1`
  abbrev pub head : List R → Option R
  head [] = none
  head (x ∷ xs) = some x

  pub append_one-Elem : (e x : R) (xs : List R) → Elem e (xs ++ x ∷ []) → (x ≡ e) ⊎ Elem e xs
  append_one-Elem e x [] h = h
  append_one-Elem e x (y ∷ ys) (inl q) = inr (inl q)
  append_one-Elem e x (y ∷ ys) (inr m) = elim (append_one-Elem e x ys m) [
    | inl q ↦ inl q
    | inr k ↦ inr (inr k)
  ]

  pub head-Elem : (e : R) (xs : List R) → head xs ≡ some e → Elem e xs
  head-Elem e [] h = absurd (cc)
  head-Elem e (x ∷ xs) h = inl (cc)

  pub Elem-rows_where :
      (p : R → Bool) (e : R) (xs : List R) → Elem e (rows_where p xs) → (p e ≡ true) × Elem e xs
  Elem-rows_where p e [] h = absurd h
  Elem-rows_where p e (x ∷ xs) h = ground (arith, Elem-rows_where p e xs)

  pub Elem-put_in :
      (key : R → ℕ) (e x : R) (xs : List R) → Elem e (put_in key x xs) → (x ≡ e) ⊎ Elem e xs
  Elem-put_in key e x [] h = h
  Elem-put_in key e x (y ∷ ys) h = ground (arith, Elem-put_in key e x ys)

  pub Elem-by_desc : (key : R → ℕ) (e : R) (xs : List R) → Elem e (by_desc key xs) → Elem e xs
  Elem-by_desc key e [] h = h
  Elem-by_desc key e (x ∷ xs) h = elim (Elem-put_in key e x (by_desc key xs) h) [
    | inl q ↦ inl q
    | inr m ↦ inr (Elem-by_desc key e xs m)
  ]

  pub Elem-remove_where :
      (p : R → Bool) (e : R) (xs : List R) → Elem e (remove_where p xs) → (p e ≡ false) × Elem e xs
  Elem-remove_where p e [] h = absurd h
  Elem-remove_where p e (x ∷ xs) h = ground (arith, Elem-remove_where p e xs)

  pub Elem-update_where :
      (p : R → Bool) (f : R → R) (e : R) (xs : List R)
      → Elem e (update_where p f xs)
      → (x : R) × Elem x xs × (e ≡ (if p x then f x else x))
  Elem-update_where p f e [] h = absurd h
  Elem-update_where p f e (x ∷ xs) (inl q) = (x, inl refl, sym q)
  Elem-update_where p f e (x ∷ xs) (inr m) =
      let (y, k, q) = Elem-update_where p f e xs m in (y, inr k, q)

  pub first_where_sound :
      (p : R → Bool) (e : R) (xs : List R) → first_where p xs ≡ some e → (p e ≡ true) × Elem e xs
  first_where_sound p e [] h = absurd (cc)
  first_where_sound p e (x ∷ xs) h = ground (arith, first_where_sound p e xs)

  -- No row passes a test that counts none.
  pub count_if-zero :
      (p : R → Bool) (e : R) (xs : List R) → count_if p xs ≡ 0 → Elem e xs → p e ≡ false
  count_if-zero p e [] h m = absurd m
  count_if-zero p e (x ∷ xs) h m = ground (arith, count_if-zero p e xs)
