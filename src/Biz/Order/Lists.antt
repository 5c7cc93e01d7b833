-- ===== src/Biz/Order/Lists.antt =====
-- The queries on orders and refunds, and the HTTP handler that accepts a refund request
-- (internal/biz/handler_order.go). A request is decoded before the handler is called.
use first_golang.Prelude.{
  ℕ, String, Bool, true, List, [], ◌∷◌, str_eq, not, ◌&&◌, ◌||◌, if◌then◌else◌, count_if, length,
  map, none,
}
use first_golang.Prelude.Int.{ℤ, pos, ◌+ℤ◌, leb_ℤ, ltb_ℤ}
use first_golang.Sql.Listing.{listing, listing_all}
use first_golang.Sql.Where.{matches}
use first_golang.Sql.Exec.{Action, Conn, Result, ok, err, query, pure, ◌>>=◌}
use first_golang.Biz.Order.Defs.{
  Order, Refund, Tables, get_order, order_pending, order_cancelled, order_closed, order_refunding,
  order_refunded,
}
use first_golang.Biz.Order.Ops.{create_refund}

-- The WHERE clause of `ListOrders`; both of its branches on `mine` add the same condition.
abbrev pub order_shown : String → String → Bool → ℕ × Order → Bool
order_shown user_id status mine (_, o) = matches user_id o.user_id && matches status o.status

-- A row as `ListOrders` returns it: the time of payment is read and not passed on.
abbrev pub order_item : ℕ × Order → ℕ × Order
order_item (id, o) = (id, record o { paid_at = none })

unfoldable pub list_orders : String → String → Bool → Action Tables (List (ℕ × Order))
unfolding listing
list_orders user_id status mine =
    query (λ t. ok (map order_item (listing 200 (order_shown user_id status mine) t.orders)))

abbrev pub refund_shown : String → String → ℕ × Refund → Bool
refund_shown user_id status (_, r) = matches user_id r.user_id && matches status r.status

-- A row as `ListRefunds` returns it: both times are read and not passed on, and stay the zero time.
abbrev pub refund_item : ℕ × Refund → ℕ × Refund
refund_item (id, r) = (id, record r { created_at = 0; updated_at = 0 })

unfoldable pub list_refunds : String → String → Action Tables (List (ℕ × Refund))
unfolding listing_all
list_refunds user_id status =
    query (λ t. ok (map refund_item (listing_all (refund_shown user_id status) t.refunds)))

pub record OrderStats : Type 0 where
  pub total_count : ℕ
  pub paid_count : ℕ
  pub total_amount : ℤ
  pub paid_amount : ℤ
  pub refund_amount : ℤ

-- `status IN ('paid','delivering','delivered','completed','refunding')`
abbrev pub counts_as_paid : String → Bool
counts_as_paid s =
    str_eq s "paid"
    || (str_eq s "delivering"
        || (str_eq s "delivered" || (str_eq s "completed" || str_eq s "refunding")))

-- `SUM(…)` over the rows that pass the test.
abbrev pub sum_if : {R : Type 0} → (R → Bool) → (R → ℤ) → List (ℕ × R) → ℤ
sum_if p f [] = pos 0
sum_if p f ((_, r) ∷ rs) = (if p r then f r else pos 0) +ℤ sum_if p f rs

-- The three aggregates of `GetOrderStats`.
abbrev pub order_totals : Tables → ℕ × ℤ
order_totals t = (length t.orders.rows, sum_if (λ (o : Order). true) (λ o. o.amount) t.orders.rows)

abbrev pub paid_totals : Tables → ℕ × ℤ
paid_totals t = (
  count_if (λ e. counts_as_paid e.1.status) t.orders.rows,
  sum_if (λ (o : Order). counts_as_paid o.status) (λ o. o.pay_amount) t.orders.rows,
)

abbrev pub refund_total : Tables → ℤ
refund_total t = sum_if (λ (r : Refund). str_eq r.status "completed") (λ r. r.amount) t.refunds.rows

unfoldable pub get_order_stats : Action Tables OrderStats
get_order_stats = do
  total ← query (λ t. ok (order_totals t))
  paid ← query (λ t. ok (paid_totals t))
  refunded ← query (λ t. ok (refund_total t))
  pure (record {
    total_count = total.0;
    paid_count = paid.0;
    total_amount = total.1;
    paid_amount = paid.1;
    refund_amount = refunded;
  })

-- The identity that the gateway has checked; of the role, whether it is one of staff
-- (`isStaffRole`).
pub record AuthCtx : Type 0 where
  pub user_id : String
  pub is_staff : Bool

-- What the refund handler answers.
pub data Reply : Type 0 where
  created : ℕ × Refund → Reply
  not_found forbidden invalid_status invalid_amount internal_error : Reply

-- The statuses for which a refund is refused.
abbrev pub refund_barred : String → Bool
refund_barred s =
    str_eq s order_pending
    || (str_eq s order_cancelled
        || (str_eq s order_closed || (str_eq s order_refunding || str_eq s order_refunded)))

abbrev pub reply_created : Result (ℕ × Refund) × Conn Tables → Reply × Conn Tables
reply_created (ok r, c) = (created r, c)
reply_created (err e, c) = (internal_error, c)

abbrev pub check_refund : AuthCtx → Refund → Result Order × Conn Tables → Reply × Conn Tables
check_refund ac rf (err e, c) = (not_found, c)
check_refund ac rf (ok o, c) =
    if not (str_eq o.user_id ac.user_id) && not ac.is_staff
    then (forbidden, c)
    else if refund_barred o.status
    then (invalid_status, c)
    else if leb_ℤ rf.amount (pos 0) || ltb_ℤ o.pay_amount rf.amount
    then (invalid_amount, c)
    else reply_created (create_refund (record rf { user_id = ac.user_id }) c)

-- `refunds`, POST
unfoldable pub request_refund : AuthCtx → Refund → Conn Tables → Reply × Conn Tables
unfolding get_order
request_refund ac rf c = check_refund ac rf (get_order rf.order_id c)
