-- ===== src/Biz/Order/Trail/Run.antt =====
-- The operations on orders, on the audit trail.
use first_golang.Prelude.{
  ℕ, suc, ◌≡◌, refl, String, none, some, Bool, true, false, inl, inr, arith, str_eq, if◌then◌else◌,
  Bool-cases, Option-cases, ◌||◌, ◌&◌,
}
use first_golang.Sql.Table.{select, insert}
use first_golang.Sql.Exec.{Conn, calm}
use first_golang.Biz.Order.Defs.{
  Order, OrderStatusLog, Tables, has_order_no, is_zero, order_pending,
}
use first_golang.Biz.Order.Ops.{
  create_order, update_order_status, set_order_status, settle_order, pay_order,
}
use first_golang.Biz.Order.Trail.{IsTrailed, born, moved-IsTrailed, born-IsTrailed}

module _ (id : ℕ) (c : Conn Tables) where
  set-IsTrailed :
      (o : Order) (to operator note : String)
      → select id c.tables.orders ≡ some o
      → IsTrailed c.tables
      → IsTrailed (set_order_status id o.status to operator note (calm c)).1.tables
  unfolding set_order_status
  set-IsTrailed o to operator note e h = elim (Bool-cases (str_eq to "paid")) [
    | inl y ↦ rw y (moved-IsTrailed id _ _ c.tables o e refl refl refl h)
    | inr n ↦ rw n (moved-IsTrailed id _ _ c.tables o e refl refl refl h)
  ]

  settle-IsTrailed :
      (o : Order) (channel pay_no : String)
      → select id c.tables.orders ≡ some o
      → IsTrailed c.tables
      → IsTrailed (settle_order id o.status channel pay_no (calm c)).1.tables
  unfolding settle_order
  settle-IsTrailed o channel pay_no e h = moved-IsTrailed id _ _ c.tables o e refl refl refl h

module _ (id : ℕ) (c : Conn Tables) where
  -- What follows the lookup of an order that is there.
  update-found :
      (o : Order) (to operator note : String)
      → select id c.tables.orders ≡ some o
      → (update_order_status id to operator note (calm c)).1.tables ≡ (
          if str_eq o.status to
          then c.tables
          else (set_order_status id o.status to operator note
              (calm (record c { tick = suc c.tick }))).1.tables)
  unfolding update_order_status
  update-found o to operator note e = ground arith

  update-missing :
      (to operator note : String)
      → select id c.tables.orders ≡ none
      → (update_order_status id to operator note (calm c)).1.tables ≡ c.tables
  unfolding update_order_status
  update-missing to operator note e = ground arith

  pay-found :
      (o : Order) (channel pay_no : String)
      → select id c.tables.orders ≡ some o
      → (pay_order id channel pay_no (calm c)).1.tables ≡ (
          if str_eq o.status "paid" || str_eq o.status "delivering"
          then c.tables
          else (settle_order id o.status channel pay_no
              (calm (record c { tick = suc c.tick }))).1.tables)
  unfolding pay_order
  pay-found o channel pay_no e = ground arith

  pay-missing :
      (channel pay_no : String)
      → select id c.tables.orders ≡ none
      → (pay_order id channel pay_no (calm c)).1.tables ≡ c.tables
  unfolding pay_order
  pay-missing channel pay_no e = ground arith

pub IsTrailed-if :
    (b : Bool) (s t : Tables) → IsTrailed s → IsTrailed t → IsTrailed (if b then s else t)
IsTrailed-if true s t h k = h
IsTrailed-if false s t h k = k

module _ (id : ℕ) (c : Conn Tables) (h : IsTrailed c.tables) where
  next : Conn Tables
  next = record c { tick = suc c.tick }

  pub update-IsTrailed :
      (to operator note : String)
      → IsTrailed (update_order_status id to operator note (calm c)).1.tables
  unfolding next
  update-IsTrailed to operator note = elim (Option-cases (select id c.tables.orders)) [
    | inl e ↦ rw (update-missing id c to operator note e) h
    | inr (o, e) ↦
        rw (update-found id c o to operator note e)
          (IsTrailed-if (str_eq o.status to) _ _ h (set-IsTrailed id next o to operator note e h))
  ]

  pub pay-IsTrailed :
      (channel pay_no : String) → IsTrailed (pay_order id channel pay_no (calm c)).1.tables
  unfolding next
  pay-IsTrailed channel pay_no = elim (Option-cases (select id c.tables.orders)) [
    | inl e ↦ rw (pay-missing id c channel pay_no e) h
    | inr (o, e) ↦ rw (pay-found id c o channel pay_no e) (
        IsTrailed-if (str_eq o.status "paid" || str_eq o.status "delivering") _ _ h
          (settle-IsTrailed id next o channel pay_no e h))
  ]

module _ (o : Order) (c : Conn Tables) where
  -- The order that `create_order` stores, and the first entry of its log.
  abbrev fresh_status : String
  fresh_status = if str_eq o.status "" then order_pending else o.status

  abbrev stored : Order
  stored = record o {
    order_no = "ORD" & c.nonce (suc c.tick);
    status = fresh_status;
    pay_amount = if is_zero o.pay_amount then o.amount else o.pay_amount;
    created_at = c.clock c.tick;
    updated_at = c.clock c.tick;
    paid_at = none;
  }

  abbrev first_log : ℕ → ℕ → OrderStatusLog
  first_log id at = record {
    order_id = id;
    from = "";
    to = fresh_status;
    operator = o.user_id;
    note = "创建订单";
    created_at = at;
  }

  pub create-tables : (create_order o (calm c)).1.tables ≡ (
      if has_order_no stored.order_no c.tables.orders.rows
      then c.tables
      else born stored
          (first_log (insert stored c.tables.orders).seq (c.clock (suc (suc (suc (suc c.tick))))))
          c.tables)
  unfolding create_order
  create-tables = ground arith

  pub create-IsTrailed : IsTrailed c.tables → IsTrailed (create_order o (calm c)).1.tables
  unfolding insert
  create-IsTrailed h = rw create-tables (
      IsTrailed-if (has_order_no stored.order_no c.tables.orders.rows) _ _ h
        (born-IsTrailed _ c.tables stored refl refl refl h))

-- The trail does not depend on the refunds.
