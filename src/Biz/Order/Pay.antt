-- ===== src/Biz/Order/Pay.antt =====
-- What a payment callback does to the order (internal/biz/order.go).
use first_golang.Prelude.{ℕ, suc, String, some, Bool, str_eq, ◌||◌}
use first_golang.Sql.Exec.{Conn}
use first_golang.Biz.Order.Defs.{Order, Tables}

abbrev is_settled : String → Bool
is_settled s = str_eq s "paid" || str_eq s "delivering"

module _ (id : ℕ) (c : Conn Tables) where
  -- The order after the UPDATE of a payment.
  abbrev settled : Order → String → String → Order
  settled o channel pay_no = record o {
    status = "paid";
    pay_channel = channel;
    pay_no = pay_no;
    updated_at = c.clock (suc c.tick);
    paid_at = some (c.clock (suc (suc c.tick)));
  }
