-- ===== src/Biz/Order/Ops.antt =====
-- The operations that change orders and refunds.
use first_golang.Prelude.{ℕ, String, Option, none, some, Bool, str_eq, if◌then◌else◌, ◌&◌, ◌||◌}
use first_golang.Sql.Table.{select, insert, modify}
use first_golang.Sql.Exec.{
  Action, Result, ok, err, unique, query, statement, ⊤, ◌>>=◌, ◌>>◌, now, random, update, ignore,
  pure,
}
use first_golang.Sql.Exec.{scan}
use first_golang.Biz.Order.Defs.{
  Order, Refund, Tables, get_order, log_order_status, is_zero, has_order_no, has_refund_no,
  order_pending, order_paid, order_delivering, order_refunding, order_refunded,
}

-- The INSERT of `CreateOrder`: `paid_at` is NULL, and the new key is returned.
abbrev insert_order : Order → Tables → Result ℕ × Tables
insert_order o t =
    let orders' = insert o t.orders in
    if has_order_no o.order_no t.orders.rows
    then (err unique, t)
    else (ok orders'.seq, record t { orders = orders' })

-- `CreateOrder`: returns the key of the new order, and the order as the code returns it.
unfoldable pub create_order : Order → Action Tables (ℕ × Order)
unfolding log_order_status
create_order o = do
  at ← now
  serial ← random
  let o' = record o {
    order_no = "ORD" & serial;
    status = if str_eq o.status "" then order_pending else o.status;
    pay_amount = if is_zero o.pay_amount then o.amount else o.pay_amount;
  }
  id ← statement (insert_order (record o' { created_at = at; updated_at = at; paid_at = none }))
  made ← now
  ignore (log_order_status id "" o'.status o'.user_id "创建订单")
  pure (id, record o' { created_at = made; updated_at = made })

-- The value that `UpdateOrderStatus` writes into `paid_at`.
abbrev paid_mark : String → Action Tables (Option ℕ)
paid_mark to = if str_eq to order_paid then (do at ← now; pure (some at)) else pure none

-- The UPDATE of `UpdateOrderStatus`. `paid_at` is set again by every change of status: to NULL,
-- unless the new status is `paid`.
unfoldable pub set_order_status : ℕ → String → String → String → String → Action Tables ⊤
unfolding get_order log_order_status
set_order_status id from to operator note = do
  mark ← paid_mark to
  at ← now
  update λ t. record t {
    orders = modify id (λ o. record o { status = to; updated_at = at; paid_at = mark }) t.orders;
  }
  log_order_status id from to operator note

unfoldable pub update_order_status : ℕ → String → String → String → Action Tables ⊤
unfolding get_order set_order_status
update_order_status id to operator note = do
  cur ← get_order id
  if str_eq cur.status to then pure tt else set_order_status id cur.status to operator note

-- The UPDATE of `PayOrder`, for an order that is not yet paid.
unfoldable pub settle_order : ℕ → String → String → String → Action Tables ⊤
unfolding log_order_status
settle_order id from channel pay_no = do
  updated ← now
  paid ← now
  update λ t. record t {
    orders =
        modify id
          (λ o. record o {
            status = order_paid;
            pay_channel = channel;
            pay_no = pay_no;
            updated_at = updated;
            paid_at = some paid;
          })
          t.orders;
  }
  log_order_status id from order_paid "system" ("支付成功 " & channel)

unfoldable pub pay_order : ℕ → String → String → Action Tables ⊤
unfolding get_order settle_order
pay_order id channel pay_no = do
  cur ← get_order id
  (if str_eq cur.status order_paid || str_eq cur.status order_delivering
      then pure tt
      else settle_order id cur.status channel pay_no)

abbrev pub insert_refund : Refund → Tables → Result ℕ × Tables
insert_refund r t =
    let refunds' = insert r t.refunds in
    if has_refund_no r.refund_no t.refunds.rows
    then (err unique, t)
    else (ok refunds'.seq, record t { refunds = refunds' })

-- `CreateRefund`: the change of the order's status may fail unnoticed.
unfoldable pub create_refund : Refund → Action Tables (ℕ × Refund)
create_refund r = do
  serial ← random
  at ← now
  let r' = record r { refund_no = "REF" & serial; status = "pending" }
  id ← statement (insert_refund (record r' { audit_note = ""; created_at = at; updated_at = at }))
  ignore (update_order_status r.order_id order_refunding r.user_id "申请退款")
  pure (id, r')

unfoldable pub audit_refund : ℕ → Bool → String → String → Action Tables ⊤
audit_refund id approve operator note = do
  r ← query (λ t. scan (select id t.refunds))
  at ← now
  update λ t. record t {
    refunds =
        modify id
          (λ x. record x {
            status = if approve then "completed" else "rejected";
            audit_note = note;
            updated_at = at;
          })
          t.refunds;
  }
  ignore (
      if approve
      then update_order_status r.order_id order_refunded operator ("退款完成 " & note)
      else update_order_status r.order_id order_paid operator ("退款驳回 " & note))
