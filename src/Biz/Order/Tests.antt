-- ===== src/Biz/Order/Tests.antt =====
-- Orders and refunds on a small shop: one pending order of alice, one completed order of bob.
use first_golang.Prelude.{
  ℕ, ◌≡◌, ◌≢◌, ◌≤◌, ◌↔◌, ◌⊎◌, refl, String, none, some, Bool, true, false, List, [], ◌∷◌, arith,
  str_eq_iff, length,
}
use first_golang.Prelude.Int.{pos, ◌≤ℤ◌}
use first_golang.Sql.Table.{select, insert, modify}
use first_golang.Sql.Listing.{In, listing, listing_all}
use first_golang.Sql.Exec.{Conn}
use first_golang.Biz.Order.Defs.{Order, Refund, Tables}
use first_golang.Biz.Order.Ops.{
  update_order_status, pay_order, create_order, create_refund, audit_refund,
}
use first_golang.Biz.Order.Lists.{
  AuthCtx, created, request_refund, list_orders, list_refunds, refund_barred,
}
use first_golang.Biz.Order.Trail.{Linked, replay}
use first_golang.Sql.Exec.{never, calm}
use first_golang.Biz.Order.Trail.History.{Op, run, no_tables, run_audit_trail}
use first_golang.Biz.Order.Filed.{IsFiled, Holds}
use first_golang.Biz.Order.Again.{request_each}
use first_golang.Biz.Order.Refunds.{refund_guarded, audit_verdict, refund_once}
use first_golang.Biz.Order.Visible.{list_orders_private, list_refunds_exact}

abbrev order_of : String → String → String → Order
order_of number user status = record {
  order_no = number;
  user_id = user;
  type = "服务";
  title = "consulting";
  amount = pos 5000;
  pay_amount = pos 4500;
  status = status;
  pay_channel = "";
  pay_no = "";
  note = "";
  created_at = 10;
  updated_at = 10;
  paid_at = none;
}

abbrev refund_of : ℕ → ℕ → Refund
refund_of order amount = record {
  refund_no = "REF0";
  order_id = order;
  user_id = "bob";
  amount = pos amount;
  reason = "late";
  type = "full";
  status = "pending";
  audit_note = "";
  created_at = 20;
  updated_at = 20;
}

abbrev shop_tables : Tables
shop_tables = record {
  orders = record {
    rows = (1, order_of "ORD1" "alice" "pending") ∷ (2, order_of "ORD2" "bob" "completed") ∷ [];
    seq = 2;
  };
  order_logs = record { rows = []; seq = 0 };
  refunds = record { rows = (1, refund_of 2 100) ∷ []; seq = 1 };
}

abbrev shop : Conn Tables
shop = record { tables = shop_tables; tick = 0; fails = never; clock = λ n. n; nonce = λ _. "x7" }

abbrev new_shop : Conn Tables
new_shop = record shop { tables = no_tables }

abbrev script : List Op
script =
    Op.create (order_of "" "alice" "")
    ∷ Op.pay 1 "alipay" "P1"
    ∷ Op.update_status 1 "delivering" "staff" ""
    ∷ Op.refund (refund_of 1 100)
    ∷ Op.audit 1 false "staff" "no"
    ∷ []

run_audit_trail_example :
    Linked 1 "" (run script new_shop).tables.order_logs.rows
    × ((o : Order)
        → select 1 (run script new_shop).tables.orders ≡ some o
        → replay 1 "" (run script new_shop).tables.order_logs.rows ≡ o.status)
run_audit_trail_example = run_audit_trail script new_shop 1 refl refl

-- The script's log leaves the order paid again.
script_replays : replay 1 "" (run script new_shop).tables.order_logs.rows ≡ "paid"
unfolding run replay no_tables create_order pay_order create_refund audit_refund update_order_status
    select insert modify
script_replays = refl

abbrev bob : AuthCtx
bob = record { user_id = "bob"; is_staff = false }

-- The refund as it is created for bob.
abbrev made_refund : ℕ × Refund
made_refund = (2, record (refund_of 2 4500) { refund_no = "REFx7" })

-- What bob asks for.
abbrev asked : Refund
asked = record (refund_of 2 4500) { user_id = "bob" }

refund_guarded_example :
    (o : Order) × (select 2 shop_tables.orders ≡ some o)
    × ((o.user_id ≡ "bob") ⊎ (◌≡◌ {A = Bool} false true))
    × (refund_barred o.status ≡ false)
    × (pos 1 ≤ℤ pos 4500)
    × (pos 4500 ≤ℤ o.pay_amount)
    × IsFiled asked made_refund.1
    × Holds asked 2 (request_refund bob (refund_of 2 4500) shop).1.tables
unfolding request_refund create_refund update_order_status select modify insert
refund_guarded_example = refund_guarded bob (refund_of 2 4500) shop made_refund refl

audit_verdict_example :
    let t = (audit_refund 1 false "staff" "no" (calm shop)).1.tables in
    (x : Order) × (y : Refund) × (select 2 t.orders ≡ some x)
    × (x.status ≡ "paid")
    × (select 1 t.refunds ≡ some y)
    × (y.status ≡ "rejected")
    × (y.audit_note ≡ "no")
    × (y.amount ≡ pos 100)
unfolding select
audit_verdict_example =
    audit_verdict 1 false "staff" "no" (refund_of 2 100) (order_of "ORD2" "bob" "completed") shop
      refl refl

-- Alice asks in between, for an order that is not paid.
abbrev between : List (AuthCtx × Refund)
between = (record { user_id = "alice"; is_staff = false }, refund_of 1 1) ∷ []

refund_once_example :
    (request_refund bob
      (refund_of 2 1)
      (request_each between (request_refund bob (refund_of 2 4500) (calm shop)).1)).0
    ≢ created made_refund
unfolding request_refund create_refund update_order_status select modify insert
refund_once_example =
    refund_once bob bob (refund_of 2 4500) (refund_of 2 1) between shop made_refund made_refund refl
      refl

abbrev bob_orders : List (ℕ × Order)
bob_orders = (2, order_of "ORD2" "bob" "completed") ∷ []

list_orders_private_example :
    (length bob_orders ≤ 200)
    × ((e : ℕ × Order)
        → In e bob_orders
        → (o : Order) × In (e.0, o) shop_tables.orders.rows
          × (o.user_id ≡ "bob")
          × (e.1 ≡ record o { paid_at = none }))
unfolding list_orders listing
list_orders_private_example =
    list_orders_private "bob" "" false shop bob_orders (ground (arith, str_eq_iff "bob" "")) refl

abbrev shown_refund : ℕ × Refund
shown_refund = (1, record (refund_of 2 100) { created_at = 0; updated_at = 0 })

list_refunds_exact_example : In shown_refund (shown_refund ∷ []) ↔ (
    (r : Refund) × In (1, r) shop_tables.refunds.rows
    × ((◌≡◌ {A = String} "" "") ⊎ (r.user_id ≡ ""))
    × ((◌≡◌ {A = String} "pending" "") ⊎ (r.status ≡ "pending"))
    × (shown_refund.1 ≡ record r { created_at = 0; updated_at = 0 }))
unfolding list_refunds listing_all
list_refunds_exact_example =
    list_refunds_exact "" "pending" shop (shown_refund ∷ []) shown_refund refl
