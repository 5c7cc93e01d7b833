-- ===== src/Biz/Order/Again.antt =====
-- An order that is being refunded, under further requests for refunds (internal/biz/order.go,
-- internal/biz/handler_order.go).
use first_golang.Prelude.{
  ℕ, ◌≡◌, inl, inr, refl, String, some, Bool, true, false, arith, str_eq, Bool-cases, if◌then◌else◌,
  List, sym, subst, [], ◌∷◌, ◌==◌, not, ◌&&◌, ◌||◌, Option,
}
use first_golang.Prelude.Int.{pos, leb_ℤ, ltb_ℤ}
use first_golang.Sql.Table.{select, select-modify, modify}
use first_golang.Sql.Keeps.{Keeps, keeps_rules, Keeps-update, Keeps-statement}
use first_golang.Sql.Exec.{Conn, Result, ok, err}
use first_golang.Biz.Order.Defs.{
  Order, Refund, Tables, has_refund_no, order_refunding, log_order_status, get_order,
}
use first_golang.Biz.Order.Ops.{update_order_status, set_order_status, create_refund, insert_refund}
use first_golang.Biz.Order.Lists.{
  AuthCtx, Reply, forbidden, invalid_status, invalid_amount, check_refund, reply_created,
  request_refund, refund_barred,
}

-- The order is being refunded.
abbrev pub IsRefunding : ℕ → Tables → Type 0
IsRefunding id t = (z : Order) × (select id t.orders ≡ some z) × (z.status ≡ order_refunding)

set-IsRefunding :
    (k id at : ℕ) (mark : Option ℕ) (t : Tables)
    → IsRefunding k t
    → IsRefunding k (record t {
      orders =
          modify id
            (λ o. record o { status = order_refunding; updated_at = at; paid_at = mark })
            t.orders;
    })
set-IsRefunding k id at mark t (z, e, s) =
    let f : Order → Order =
      λ o. record o { status = order_refunding; updated_at = at; paid_at = mark } in
    elim (Bool-cases (id == k)) [
      | inl b ↦ (f z, ground (arith, select-modify t.orders id k f, e, b), refl)
      | inr b ↦ (z, ground (arith, select-modify t.orders id k f, e, b), s)
    ]

IsRefunding-Keeps :
    (k id : ℕ) (operator note : String)
    → Keeps (IsRefunding k) (update_order_status id order_refunding operator note)
unfolding update_order_status set_order_status log_order_status get_order
IsRefunding-Keeps k id operator note = search (keeps_rules, Keeps-update, set-IsRefunding) depth 16

insert_refund-IsRefunding :
    (k : ℕ) (y : Refund) (t : Tables) → IsRefunding k t → IsRefunding k (insert_refund y t).1
insert_refund-IsRefunding k y t h = elim (Bool-cases (has_refund_no y.refund_no t.refunds.rows)) [
  | inl e ↦ rw e h
  | inr e ↦ rw e h
]

create_refund-Keeps : (k : ℕ) (r : Refund) → Keeps (IsRefunding k) (create_refund r)
unfolding create_refund
create_refund-Keeps k r =
    search (keeps_rules, IsRefunding-Keeps, Keeps-statement, insert_refund-IsRefunding) depth 16

-- Requests for refunds, one after another.
pub request_each : List (AuthCtx × Refund) → Conn Tables → Conn Tables
request_each [] c = c
request_each ((ac, rf) ∷ more) c = request_each more (request_refund ac rf c).1

replied : (x : Result (ℕ × Refund) × Conn Tables) → (reply_created x).1 ≡ x.1
replied (ok r, c) = refl
replied (err e, c) = refl

if-IsRefunding :
    (k : ℕ) (b : Bool) (reply : Reply) (c : Conn Tables) (y : Reply × Conn Tables)
    → IsRefunding k c.tables
    → IsRefunding k y.1.tables
    → IsRefunding k (if b then (reply, c) else y).1.tables
if-IsRefunding k true reply c y h h' = h
if-IsRefunding k false reply c y h h' = h'

check_refund-IsRefunding :
    (k : ℕ) (ac : AuthCtx) (rf : Refund) (r : Result Order) (c : Conn Tables)
    → IsRefunding k c.tables
    → IsRefunding k (check_refund ac rf (r, c)).1.tables
check_refund-IsRefunding k ac rf (err e) c h = h
check_refund-IsRefunding k ac rf (ok o) c h =
    let made = create_refund (record rf { user_id = ac.user_id }) c in
    let last : IsRefunding k (reply_created made).1.tables =
      subst (λ z. IsRefunding k z.tables) (sym (replied made))
        ((create_refund-Keeps k (record rf { user_id = ac.user_id })).at c h) in
    let amounts : Reply × Conn Tables =
      if leb_ℤ rf.amount (pos 0) || ltb_ℤ o.pay_amount rf.amount
      then (invalid_amount, c)
      else reply_created made in
    let statuses : Reply × Conn Tables =
      if refund_barred o.status then (invalid_status, c) else amounts in
    if-IsRefunding k (not (str_eq o.user_id ac.user_id) && not ac.is_staff) forbidden c statuses h (
      if-IsRefunding k (refund_barred o.status) invalid_status c amounts h (
        if-IsRefunding k (leb_ℤ rf.amount (pos 0) || ltb_ℤ o.pay_amount rf.amount) invalid_amount c
          (reply_created made) h last))

get_order-Keeps : (k id : ℕ) → Keeps (IsRefunding k) (get_order id)
unfolding get_order
get_order-Keeps k id = search (keeps_rules) depth 4

request-IsRefunding :
    (k : ℕ) (ac : AuthCtx) (rf : Refund) (c : Conn Tables)
    → IsRefunding k c.tables
    → IsRefunding k (request_refund ac rf c).1.tables
unfolding request_refund
request-IsRefunding k ac rf c h =
    check_refund-IsRefunding k ac rf (get_order rf.order_id c).0 (get_order rf.order_id c).1
      ((get_order-Keeps k rf.order_id).at c h)

pub each-IsRefunding :
    (k : ℕ) (more : List (AuthCtx × Refund)) (c : Conn Tables)
    → IsRefunding k c.tables
    → IsRefunding k (request_each more c).tables
unfolding request_each
each-IsRefunding k [] c h = h
each-IsRefunding k ((ac, rf) ∷ more) c h =
    each-IsRefunding k more (request_refund ac rf c).1 (request-IsRefunding k ac rf c h)
