-- ===== src/Biz/Order/Defs.antt =====
-- The rows of the three tables, the statuses of an order, and the lookups by key.
use first_golang.Prelude.{ℕ, String, Option, List, [], ◌∷◌, Bool, false, str_eq, ◌==◌, ◌||◌}
use first_golang.Prelude.Int.{ℤ, pos, negsuc}
use first_golang.Sql.Table.{Table, select, insert}
use first_golang.Sql.Exec.{Action, scan, query, ⊤, ◌>>=◌, now, update}

abbrev pub order_pending : String
order_pending = "pending"

abbrev pub order_paid : String
order_paid = "paid"

abbrev pub order_delivering : String
order_delivering = "delivering"

abbrev pub order_cancelled : String
order_cancelled = "cancelled"

abbrev pub order_closed : String
order_closed = "closed"

abbrev pub order_refunding : String
order_refunding = "refunding"

abbrev pub order_refunded : String
order_refunded = "refunded"

pub record Order : Type 0 where
  pub order_no : String
  pub user_id : String
  pub type : String
  pub title : String
  pub amount : ℤ
  pub pay_amount : ℤ
  pub status : String
  pub pay_channel : String
  pub pay_no : String
  pub note : String
  pub created_at : ℕ
  pub updated_at : ℕ
  pub paid_at : Option ℕ

pub record OrderStatusLog : Type 0 where
  pub order_id : ℕ
  pub from : String
  pub to : String
  pub operator : String
  pub note : String
  pub created_at : ℕ

pub record Refund : Type 0 where
  pub refund_no : String
  pub order_id : ℕ
  pub user_id : String
  pub amount : ℤ
  pub reason : String
  pub type : String
  pub status : String
  pub audit_note : String
  pub created_at : ℕ
  pub updated_at : ℕ

pub record Tables : Type 0 where
  pub orders : Table Order
  pub order_logs : Table OrderStatusLog
  pub refunds : Table Refund

unfoldable pub get_order : ℕ → Action Tables Order
get_order id = query (λ t. scan (select id t.orders))

-- `logOrderStatus`
unfoldable pub log_order_status : ℕ → String → String → String → String → Action Tables ⊤
log_order_status id from to operator note = do
  at ← now
  update λ t. record t {
    order_logs =
        insert
          (record {
            order_id = id;
            from = from;
            to = to;
            operator = operator;
            note = note;
            created_at = at;
          })
          t.order_logs;
  }

abbrev pub is_zero : ℤ → Bool
is_zero (pos n) = n == 0
is_zero (negsuc n) = false

-- The UNIQUE constraint on `order_no`.
abbrev pub has_order_no : String → List (ℕ × Order) → Bool
has_order_no number [] = false
has_order_no number ((_, o) ∷ os) = str_eq o.order_no number || has_order_no number os

-- The UNIQUE constraint on `refund_no`.
abbrev pub has_refund_no : String → List (ℕ × Refund) → Bool
has_refund_no number [] = false
has_refund_no number ((_, r) ∷ rs) = str_eq r.refund_no number || has_refund_no number rs
