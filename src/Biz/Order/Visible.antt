-- ===== src/Biz/Order/Visible.antt =====
-- What the order and refund queries show.
use first_golang.Prelude.{
  ℕ, ◌≤◌, ◌≡◌, ◌≢◌, ◌↔◌, ◌⊎◌, String, Bool, true, List, [], ◌∷◌, map, none, inl, inr, ap, sym, refl,
  ◌∙◌, subst, arith, str_eq_iff, length,
}
use first_golang.Sql.Listing.{
  In, listing, listing_all, listing_sound, length-listing, listing_all_iff,
}
use first_golang.Sql.Exec.{Conn, ok, query-reads}
use first_golang.Biz.Order.Defs.{Order, Refund, Tables}
use first_golang.Biz.Order.Lists.{
  list_orders, list_refunds, order_shown, refund_shown, order_item, refund_item,
}
use first_golang.Sql.Where.{matches, matches_iff, and_iff}

shown_owner :
    (user_id status : String) (mine : Bool) (e : ℕ × Order)
    → user_id ≢ ""
    → order_shown user_id status mine e ≡ true
    → e.1.user_id ≡ user_id
shown_owner user_id status mine e ne h =
    ground (arith, str_eq_iff user_id "", str_eq_iff e.1.user_id user_id)

length-map : {R : Type 0} (f : ℕ × R → ℕ × R) (xs : List (ℕ × R)) → length (map f xs) ≡ length xs
length-map f [] = refl
length-map f (x ∷ xs) = omega (arith, length-map f xs)

-- An item of a list stands for a row.
map-In :
    {R : Type 0} (f : ℕ × R → ℕ × R) (e : ℕ × R) (xs : List (ℕ × R))
    → In e (map f xs) ↔ ((y : ℕ × R) × In y xs × (f y ≡ e))
map-In f e [] = (absurd, λ h. absurd h.1)
map-In f e (x ∷ xs) =
    let (to, from) = map-In f e xs in
    (
      elim [ inl q ↦ (x, inl refl, q) | inr m ↦ let (y, n, q) = to m in (y, inr n, q) ],
      λ h. elim h.1 [ inl q ↦ inl (ap f q ∙ h.2) | inr m ↦ inr (from (h.0, m, h.2)) ],
    )

-- A list of orders for a named user has at most 200 items, whether or not `mine` is asked for, and
-- each item is an order of that user that is in the table, but for its time of payment, which no
-- item has.
pub list_orders_private :
    (user_id status : String) (mine : Bool) (c : Conn Tables) (items : List (ℕ × Order))
    → user_id ≢ ""
    → (list_orders user_id status mine c).0 ≡ ok items
    → (length items ≤ 200)
      × ((e : ℕ × Order)
          → In e items
          → (o : Order) × In (e.0, o) c.tables.orders.rows
            × (o.user_id ≡ user_id)
            × (e.1 ≡ record o { paid_at = none }))
unfolding list_orders
list_orders_private user_id status mine c items ne h =
    let p = order_shown user_id status mine in
    let eq = query-reads (λ (t : Tables). map order_item (listing 200 p t.orders)) c items h in
    (
      rw (← eq) (
          omega (
            arith,
            length-map order_item (listing 200 p c.tables.orders),
            length-listing 200 p c.tables.orders,
          )),
      λ e m.
          let (y, n, q) =
            (map-In order_item e (listing 200 p c.tables.orders)).0 (rw (← eq) at m) in
          let (passed, there) = listing_sound 200 p c.tables.orders y n in
          (
            y.1,
            subst (λ z. In (z.0, y.1) c.tables.orders.rows) q there,
            shown_owner user_id status mine y ne passed,
            sym (ap (λ z. z.1) q),
          ),
    )

-- A list of refunds holds exactly the refunds of the table that match the user and the status, an
-- empty argument matching all, with the zero time in place of their two times.
pub list_refunds_exact :
    (user_id status : String) (c : Conn Tables) (items : List (ℕ × Refund)) (e : ℕ × Refund)
    → (list_refunds user_id status c).0 ≡ ok items
    → In e items ↔ (
        (r : Refund) × In (e.0, r) c.tables.refunds.rows
        × ((user_id ≡ "") ⊎ (r.user_id ≡ user_id))
        × ((status ≡ "") ⊎ (r.status ≡ status))
        × (e.1 ≡ record r { created_at = 0; updated_at = 0 }))
unfolding list_refunds
list_refunds_exact user_id status c items e h =
    let p = refund_shown user_id status in
    let eq = query-reads (λ (t : Tables). map refund_item (listing_all p t.refunds)) c items h in
    let (out, back) = map-In refund_item e (listing_all p c.tables.refunds) in
    (
      λ m.
          let (y, n, q) = out (rw (← eq) at m) in
          let (passed, there) = (listing_all_iff p c.tables.refunds y).0 n in
          let (both, join) = and_iff (matches user_id y.1.user_id) (matches status y.1.status) in
          (
            y.1,
            subst (λ z. In (z.0, y.1) c.tables.refunds.rows) q there,
            (matches_iff user_id y.1.user_id).0 (both passed).0,
            (matches_iff status y.1.status).0 (both passed).1,
            sym (ap (λ z. z.1) q),
          ),
      λ k.
          let (r, there, u, s, q) = k in
          let (both, join) = and_iff (matches user_id r.user_id) (matches status r.status) in
          rw (← eq) (
            back (
              (e.0, r),
              (listing_all_iff p c.tables.refunds (e.0, r)).1 (
                join ((matches_iff user_id r.user_id).1 u, (matches_iff status r.status).1 s),
                there,
              ),
              ap (λ z. (e.0, z)) (sym q),
            )),
    )
