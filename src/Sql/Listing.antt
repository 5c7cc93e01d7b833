-- ===== src/Sql/Listing.antt =====
-- `SELECT … WHERE p ORDER BY id DESC LIMIT n` over the rows of a table.
use first_golang.Prelude.{
  ℕ, zero, suc, ◌≤◌, ◌≡◌, refl, Bool, true, false, List, [], ◌∷◌, ◌⊎◌, ◌↔◌, inl, inr, arith, leb,
  length, ◌++◌, not, if◌then◌else◌, Bool-cases,
}
use first_golang.Sql.Table.{Table, insert}

module _ {R : Type 0} where
  abbrev pub where_rows : (ℕ × R → Bool) → List (ℕ × R) → List (ℕ × R)
  where_rows p [] = []
  where_rows p (e ∷ es) = let rest = where_rows p es in if p e then e ∷ rest else rest

  place : ℕ × R → List (ℕ × R) → List (ℕ × R)
  place e [] = e ∷ []
  place e (x ∷ xs) = let rest = place e xs in if leb x.0 e.0 then e ∷ x ∷ xs else x ∷ rest

  pub order_desc : List (ℕ × R) → List (ℕ × R)
  unfolding place
  order_desc [] = []
  order_desc (e ∷ es) = place e (order_desc es)

  pub limit : ℕ → List (ℕ × R) → List (ℕ × R)
  limit zero es = []
  limit (suc n) [] = []
  limit (suc n) (e ∷ es) = e ∷ limit n es

  -- `WHERE p ORDER BY id DESC LIMIT n`
  unfoldable pub listing : ℕ → (ℕ × R → Bool) → Table R → List (ℕ × R)
  unfolding order_desc limit
  listing n p t = limit n (order_desc (where_rows p t.rows))

  -- `WHERE p ORDER BY id DESC`
  unfoldable pub listing_all : (ℕ × R → Bool) → Table R → List (ℕ × R)
  unfolding order_desc
  listing_all p t = order_desc (where_rows p t.rows)

  backwards : List (ℕ × R) → List (ℕ × R)
  backwards [] = []
  backwards (e ∷ es) = backwards es ++ e ∷ []

  -- `WHERE p ORDER BY id`
  unfoldable pub listing_asc : (ℕ × R → Bool) → Table R → List (ℕ × R)
  unfolding order_desc backwards
  listing_asc p t = backwards (order_desc (where_rows p t.rows))

  -- `DELETE … WHERE p`
  unfoldable pub delete_where : (ℕ × R → Bool) → Table R → Table R
  delete_where p t = record t { rows = where_rows (λ e. not (p e)) t.rows }

  -- The row is in the list.
  abbrev pub In : ℕ × R → List (ℕ × R) → Type 0
  In e [] = ⊥
  In e (x ∷ xs) = (x ≡ e) ⊎ In e xs

  In-if :
      (b : Bool) (x e : ℕ × R) (es : List (ℕ × R))
      → In e (if b then x ∷ es else es) ↔ (((b ≡ true) × (x ≡ e)) ⊎ In e es)
  In-if true x e es =
      (elim [ inl q ↦ inl (refl, q) | inr m ↦ inr m ], elim [ inl q ↦ inl q.1 | inr m ↦ inr m ])
  In-if false x e es = (inr, elim [ inl q ↦ cc | inr m ↦ m ])

  where_rows_iff :
      (p : ℕ × R → Bool) (e : ℕ × R) (es : List (ℕ × R))
      → In e (where_rows p es) ↔ ((p e ≡ true) × In e es)
  where_rows_iff p e [] = (absurd, λ h. h.1)
  where_rows_iff p e (x ∷ xs) =
      let (to, from) = where_rows_iff p e xs in
      let (open_if, close_if) = In-if (p x) x e (where_rows p xs) in
      (
        λ h. elim (open_if h) [
          | inl q ↦ (rw (← q.1) q.0, inl q.1)
          | inr m ↦ ((to m).0, inr (to m).1)
        ],
        λ h. elim h.1 [
          | inl q ↦ close_if (inl (rw q h.0, q))
          | inr m ↦ close_if (inr (from (h.0, m)))
        ],
      )

  place_iff : (e x : ℕ × R) (es : List (ℕ × R)) → In e (place x es) ↔ ((x ≡ e) ⊎ In e es)
  unfolding place
  place_iff e x [] = (λ h. h, λ h. h)
  place_iff e x (y ∷ ys) = elim (Bool-cases (leb y.0 x.0)) [
    | inl b ↦ rw b (λ h. h, λ h. h)
    | inr b ↦
        let (to, from) = place_iff e x ys in
        rw b (
          elim [
            | inl q ↦ inr (inl q)
            | inr m ↦ elim (to m) [ inl q ↦ inl q | inr k ↦ inr (inr k) ]
          ],
          elim [
            | inl q ↦ inr (from (inl q))
            | inr m ↦ elim m [ inl q ↦ inl q | inr k ↦ inr (from (inr k)) ]
          ],
        )
  ]

  order_desc_iff : (e : ℕ × R) (es : List (ℕ × R)) → In e (order_desc es) ↔ In e es
  unfolding order_desc
  order_desc_iff e [] = (λ h. h, λ h. h)
  order_desc_iff e (x ∷ xs) =
      let (to, from) = place_iff e x (order_desc xs) in
      let (up, down) = order_desc_iff e xs in
      (
        λ h. elim (to h) [ inl q ↦ inl q | inr m ↦ inr (up m) ],
        elim [ inl q ↦ from (inl q) | inr m ↦ from (inr (down m)) ],
      )

  append-In : (e x : ℕ × R) (es : List (ℕ × R)) → In e (es ++ x ∷ []) ↔ ((x ≡ e) ⊎ In e es)
  append-In e x [] = (λ h. h, λ h. h)
  append-In e x (y ∷ ys) =
      let (to, from) = append-In e x ys in
      (
        elim [ inl q ↦ inr (inl q) | inr m ↦ elim (to m) [ inl q ↦ inl q | inr k ↦ inr (inr k) ] ],
        elim [
          | inl q ↦ inr (from (inl q))
          | inr m ↦ elim m [ inl q ↦ inl q | inr k ↦ inr (from (inr k)) ]
        ],
      )

  backwards_iff : (e : ℕ × R) (es : List (ℕ × R)) → In e (backwards es) ↔ In e es
  unfolding backwards
  backwards_iff e [] = (λ h. h, λ h. h)
  backwards_iff e (x ∷ xs) =
      let (to, from) = append-In e x (backwards xs) in
      let (up, down) = backwards_iff e xs in
      (
        λ h. elim (to h) [ inl q ↦ inl q | inr m ↦ inr (up m) ],
        elim [ inl q ↦ from (inl q) | inr m ↦ from (inr (down m)) ],
      )

  limit-In : (n : ℕ) (e : ℕ × R) (es : List (ℕ × R)) → In e (limit n es) → In e es
  unfolding limit
  limit-In zero e es h = absurd h
  limit-In (suc n) e [] h = h
  limit-In (suc n) e (x ∷ xs) (inl q) = inl q
  limit-In (suc n) e (x ∷ xs) (inr m) = inr (limit-In n e xs m)

  length-limit : (n : ℕ) (es : List (ℕ × R)) → length (limit n es) ≤ n
  unfolding limit
  length-limit zero es = omega arith
  length-limit (suc n) [] = omega arith
  length-limit (suc n) (x ∷ xs) = omega (arith, length-limit n xs)

-- A listing holds rows of the table that pass the test, and at most the limit of them.
pub listing_sound :
    {R : Type 0} (n : ℕ) (p : ℕ × R → Bool) (t : Table R) (e : ℕ × R)
    → In e (listing n p t)
    → (p e ≡ true) × In e t.rows
unfolding listing
listing_sound n p t e h =
    (where_rows_iff p e t.rows).0 (
      (order_desc_iff e (where_rows p t.rows)).0
        (limit-In n e (order_desc (where_rows p t.rows)) h))

pub length-listing :
    {R : Type 0} (n : ℕ) (p : ℕ × R → Bool) (t : Table R) → length (listing n p t) ≤ n
unfolding listing
length-listing n p t = length-limit n (order_desc (where_rows p t.rows))

-- Without a limit the listing holds exactly the rows that pass the test.
pub listing_all_iff :
    {R : Type 0} (p : ℕ × R → Bool) (t : Table R) (e : ℕ × R)
    → In e (listing_all p t) ↔ ((p e ≡ true) × In e t.rows)
unfolding listing_all
listing_all_iff p t e =
    let (up, down) = order_desc_iff e (where_rows p t.rows) in
    let (to, from) = where_rows_iff p e t.rows in (λ h. to (up h), λ h. down (from h))

pub listing_asc_iff :
    {R : Type 0} (p : ℕ × R → Bool) (t : Table R) (e : ℕ × R)
    → In e (listing_asc p t) ↔ ((p e ≡ true) × In e t.rows)
unfolding listing_asc
listing_asc_iff p t e =
    let (out, back) = backwards_iff e (order_desc (where_rows p t.rows)) in
    let (up, down) = order_desc_iff e (where_rows p t.rows) in
    let (to, from) = where_rows_iff p e t.rows in (λ h. to (up (out h)), λ h. back (down (from h)))

pub delete_where_iff :
    {R : Type 0} (p : ℕ × R → Bool) (t : Table R) (e : ℕ × R)
    → In e (delete_where p t).rows ↔ ((not (p e) ≡ true) × In e t.rows)
unfolding delete_where
delete_where_iff p t e = where_rows_iff (λ x. not (p x)) e t.rows

-- The list depends only on the rows that pass the test.
where_rows-append :
    {R : Type 0} (p : ℕ × R → Bool) (xs : List (ℕ × R)) (x : ℕ × R)
    → p x ≡ false
    → where_rows p (xs ++ x ∷ []) ≡ where_rows p xs
where_rows-append p [] x h = ground arith
where_rows-append p (y ∷ ys) x h = ground (arith, where_rows-append p ys x h)

-- Inserting a row that fails the test does not show.
pub listing_asc-insert :
    {R : Type 0} (p : ℕ × R → Bool) (r : R) (t : Table R)
    → p (suc t.seq, r) ≡ false
    → listing_asc p (insert r t) ≡ listing_asc p t
unfolding listing_asc insert
listing_asc-insert p r t h = rw (where_rows-append p t.rows (suc t.seq, r) h) refl

pub insert-In :
    {R : Type 0} (r : R) (t : Table R) (e : ℕ × R)
    → In e (insert r t).rows ↔ (((suc t.seq, r) ≡ e) ⊎ In e t.rows)
unfolding insert
insert-In r t e = append-In e (suc t.seq, r) t.rows
