-- ===== src/Sql/Table.antt =====
-- A table whose key is `INTEGER PRIMARY KEY AUTOINCREMENT`: the rows, each behind its key, and the
-- highest key ever given out.
use first_golang.Prelude.{
  ℕ, suc, ◌≤◌, ◌<◌, ◌≡◌, refl, List, [], ◌∷◌, ◌++◌, Option, none, some, arith, ◌==◌, if◌then◌else◌,
  All,
}

pub record Table (R : Type 0) : Type 0 where
  pub rows : List (ℕ × R)
  pub seq : ℕ

module _ {R : Type 0} where
  -- `SELECT … WHERE id=?` over the rows
  abbrev find : ℕ → List (ℕ × R) → Option R
  find id [] = none
  find id ((j, r) ∷ rs) = if j == id then some r else find id rs

  abbrev change : ℕ → (R → R) → List (ℕ × R) → List (ℕ × R)
  change id f [] = []
  change id f ((j, r) ∷ rs) = (j, if j == id then f r else r) ∷ change id f rs

  abbrev remove : ℕ → List (ℕ × R) → List (ℕ × R)
  remove id [] = []
  remove id ((j, r) ∷ rs) = if j == id then remove id rs else (j, r) ∷ remove id rs

  unfoldable pub empty : Table R
  empty = record { rows = []; seq = 0 }

  unfoldable pub select : ℕ → Table R → Option R
  select id t = find id t.rows

  -- `LastInsertId` after the insertion is `(insert r t).seq`.
  unfoldable pub insert : R → Table R → Table R
  insert r t = record { rows = t.rows ++ (suc t.seq, r) ∷ []; seq = suc t.seq }

  -- `UPDATE … WHERE id=?`
  unfoldable pub modify : ℕ → (R → R) → Table R → Table R
  modify id f t = record t { rows = change id f t.rows }

  -- `DELETE … WHERE id=?`
  unfoldable pub delete : ℕ → Table R → Table R
  delete id t = record t { rows = remove id t.rows }

  -- Every key has been given out.
  abbrev pub IsKeyed : Table R → Type 0
  IsKeyed t = All (λ e. e.0 ≤ t.seq) t.rows

  find-append :
      (id k : ℕ) (r : R) (rs : List (ℕ × R))
      → find id (rs ++ (k, r) ∷ [])
        ≡ elim (find id rs) [ none ↦ (if k == id then some r else none) | some x ↦ some x ]
  find-append id k r [] = refl
  find-append id k r ((j, x) ∷ rs) = ground (arith, find-append id k r rs)

  find-fresh : (id n : ℕ) (rs : List (ℕ × R)) → All (λ e. e.0 ≤ n) rs → n < id → find id rs ≡ none
  find-fresh id n [] h l = refl
  find-fresh id n ((j, x) ∷ rs) h l = ground (arith, find-fresh id n rs h.1 l)

  find-le :
      (id n : ℕ) (r : R) (rs : List (ℕ × R)) → All (λ e. e.0 ≤ n) rs → find id rs ≡ some r → id ≤ n
  find-le id n r [] h e = cc
  find-le id n r ((j, x) ∷ rs) h e = ground (arith, find-le id n r rs h.1)

  find-change :
      (id j : ℕ) (f : R → R) (rs : List (ℕ × R))
      → find j (change id f rs)
        ≡ elim (find j rs) [ none ↦ none | some r ↦ some (if id == j then f r else r) ]
  find-change id j f [] = refl
  find-change id j f ((k, x) ∷ rs) = ground (arith, find-change id j f rs)

  find-remove :
      (id j : ℕ) (rs : List (ℕ × R)) → find j (remove id rs) ≡ (if id == j then none else find j rs)
  find-remove id j [] = ground arith
  find-remove id j ((k, x) ∷ rs) = ground (arith, find-remove id j rs)

  All-append_one :
      (n k : ℕ) (r : R) (rs : List (ℕ × R))
      → All (λ e. e.0 ≤ n) rs
      → n ≤ k
      → All (λ e. e.0 ≤ k) (rs ++ (k, r) ∷ [])
  All-append_one n k r [] h l = omega arith
  All-append_one n k r ((j, x) ∷ rs) h l = (omega arith, All-append_one n k r rs h.1 l)

  All-change :
      (id n : ℕ) (f : R → R) (rs : List (ℕ × R))
      → All (λ e. e.0 ≤ n) rs
      → All (λ e. e.0 ≤ n) (change id f rs)
  All-change id n f [] h = tt
  All-change id n f ((j, x) ∷ rs) h = (h.0, All-change id n f rs h.1)

  All-remove :
      (id n : ℕ) (rs : List (ℕ × R)) → All (λ e. e.0 ≤ n) rs → All (λ e. e.0 ≤ n) (remove id rs)
  All-remove id n [] h = tt
  All-remove id n ((j, x) ∷ rs) h = ground (arith, All-remove id n rs h.1)

module _ {R : Type 0} (t : Table R) where
  -- A fresh key finds nothing, and the inserted row once it is inserted.
  pub select-fresh : IsKeyed t → select (suc t.seq) t ≡ none
  unfolding select
  select-fresh h = find-fresh (suc t.seq) t.seq t.rows h (omega arith)

  -- A key that finds a row has been given out.
  pub select-le : (id : ℕ) (r : R) → IsKeyed t → select id t ≡ some r → id ≤ t.seq
  unfolding select
  select-le id r h e = find-le id t.seq r t.rows h e

  pub select-insert :
      (j : ℕ) (r : R)
      → IsKeyed t
      → select j (insert r t) ≡ (if suc t.seq == j then some r else select j t)
  unfolding select insert
  select-insert j r h =
      ground (arith, find-append j (suc t.seq) r t.rows, find-fresh (suc t.seq) t.seq t.rows h)

  pub select-modify :
      (id j : ℕ) (f : R → R)
      → select j (modify id f t)
        ≡ elim (select j t) [ none ↦ none | some r ↦ some (if id == j then f r else r) ]
  unfolding select modify
  select-modify id j f = find-change id j f t.rows

  pub select-delete : (id j : ℕ) → select j (delete id t) ≡ (if id == j then none else select j t)
  unfolding select delete
  select-delete id j = find-remove id j t.rows

  pub insert-IsKeyed : (r : R) → IsKeyed t → IsKeyed (insert r t)
  unfolding insert
  insert-IsKeyed r h = All-append_one t.seq (suc t.seq) r t.rows h (omega arith)

  pub modify-IsKeyed : (id : ℕ) (f : R → R) → IsKeyed t → IsKeyed (modify id f t)
  unfolding modify
  modify-IsKeyed id f h = All-change id t.seq f t.rows h

  pub delete-IsKeyed : (id : ℕ) → IsKeyed t → IsKeyed (delete id t)
  unfolding delete
  delete-IsKeyed id h = All-remove id t.seq t.rows h
