-- ===== src/Biz/Service/Request.antt =====
-- The HTTP handler that accepts a service order (internal/biz/handler_service.go): it reads the
-- order that pays for it and the permissions of staff. A request is decoded before the handler is
-- called.
use first_golang.Prelude.{
  ℕ, ◌≡◌, ◌⊎◌, inl, inr, String, some, Bool, true, false, arith, str_eq, str_eq_iff, not, ◌==◌,
  ◌||◌, if◌then◌else◌, Option-cases,
}
use first_golang.Sql.Table.{select}
use first_golang.Sql.Exec.{Conn, Result, ok, err, Action, otherwise}
use first_golang.Sql.Within.{within}
use first_golang.Biz.Order.{Order, Tables as OrderTables, get_order}
use first_golang.Biz.Rbac.Defs.{Tables as RbacTables}
use first_golang.Biz.Rbac.Ops.{has_permission}
use first_golang.Biz.Service.Defs.{ServiceOrder, Tables as ServiceTables}
use first_golang.Biz.Service.Ops.{create_service_order}

-- The tables that the handler touches.
pub record Database : Type 0 where
  pub orders : OrderTables
  pub rbac : RbacTables
  pub services : ServiceTables

-- The identity that the gateway has checked; of the role, whether it is one of staff
-- (`isStaffRole`).
pub record Caller : Type 0 where
  pub user_id : String
  pub is_staff : Bool

-- What the handler answers.
pub data Reply : Type 0 where
  created : ℕ × ServiceOrder → Reply
  order_id_required order_not_found no_permission not_your_order not_paid internal_error : Reply

-- The statuses in which an order pays for a service.
abbrev pub is_paid_for : String → Bool
is_paid_for s =
    str_eq s "paid" || (str_eq s "delivering" || (str_eq s "delivered" || str_eq s "completed"))

abbrev find_order : ℕ → Action Database Order
find_order id = within (λ d. d.orders) (λ t d. record d { orders = t }) (get_order id)

-- An error of the check counts as no permission.
abbrev may_read_orders : String → Action Database Bool
may_read_orders user_id =
    within (λ d. d.rbac) (λ t d. record d { rbac = t })
      (otherwise false (has_permission user_id "order:read"))

abbrev insert_service : ServiceOrder → Action Database (ℕ × ServiceOrder)
insert_service so =
    within (λ d. d.services) (λ t d. record d { services = t }) (create_service_order so)

abbrev reply_created : Result (ℕ × ServiceOrder) × Conn Database → Reply × Conn Database
reply_created (ok so, c) = (created so, c)
reply_created (err e, c) = (internal_error, c)

abbrev accept : Caller → ServiceOrder → Conn Database → Reply × Conn Database
accept ac so c = reply_created (insert_service (record so { user_id = ac.user_id }) c)

abbrev by_staff : Caller → ServiceOrder → Result Bool × Conn Database → Reply × Conn Database
by_staff ac so (ok b, c) = if b then accept ac so c else (no_permission, c)
by_staff ac so (err e, c) = (no_permission, c)

abbrev by_customer : Caller → ServiceOrder → Order → Conn Database → Reply × Conn Database
by_customer ac so o c =
    if not (str_eq o.user_id ac.user_id)
    then (not_your_order, c)
    else if is_paid_for o.status
    then accept ac so c
    else (not_paid, c)

abbrev check_order : Caller → ServiceOrder → Result Order × Conn Database → Reply × Conn Database
check_order ac so (err e, c) = (order_not_found, c)
check_order ac so (ok o, c) =
    if ac.is_staff then by_staff ac so (may_read_orders ac.user_id c) else by_customer ac so o c

-- `serviceOrders`, POST
unfoldable pub request_service : Caller → ServiceOrder → Conn Database → Reply × Conn Database
unfolding get_order has_permission create_service_order
request_service ac so c =
    if so.order_id == 0
    then (order_id_required, c)
    else check_order ac so (find_order so.order_id c)

module _ (ac : Caller) (so : ServiceOrder) (c : Conn Database) where
  order_found :
      (x : ℕ × ServiceOrder)
      → (request_service ac so c).0 ≡ created x
      → (o : Order) × (select so.order_id c.tables.orders.orders ≡ some o)
  unfolding request_service get_order
  order_found x h = elim (Option-cases (select so.order_id c.tables.orders.orders)) [
    | inl e ↦ absurd (ground arith)
    | inr (o, e) ↦ (o, e)
  ]

  customer_checked :
      (x : ℕ × ServiceOrder) (o : Order)
      → select so.order_id c.tables.orders.orders ≡ some o
      → ac.is_staff ≡ false
      → (request_service ac so c).0 ≡ created x
      → (str_eq o.user_id ac.user_id ≡ true) × (is_paid_for o.status ≡ true)
  unfolding request_service get_order
  customer_checked x o e s h = ground arith

paid_for :
    (s : String)
    → is_paid_for s ≡ true
    → (s ≡ "paid") ⊎ ((s ≡ "delivering") ⊎ ((s ≡ "delivered") ⊎ (s ≡ "completed")))
paid_for s h = ground (
  arith,
  str_eq_iff s "paid",
  str_eq_iff s "delivering",
  str_eq_iff s "delivered",
  str_eq_iff s "completed",
)

-- Whatever the driver does, a service order that a customer asks for is created only for an order
-- that is in the table, is that customer's and is paid, being delivered, delivered or completed.
pub service_order_needs_payment :
    (ac : Caller) (so : ServiceOrder) (c : Conn Database) (x : ℕ × ServiceOrder)
    → ac.is_staff ≡ false
    → (request_service ac so c).0 ≡ created x
    → (o : Order) × (select so.order_id c.tables.orders.orders ≡ some o)
      × (o.user_id ≡ ac.user_id)
      × ((o.status ≡ "paid")
          ⊎ ((o.status ≡ "delivering") ⊎ ((o.status ≡ "delivered") ⊎ (o.status ≡ "completed"))))
service_order_needs_payment ac so c x s h =
    let (o, e) = order_found ac so c x h in
    let (mine, paid) = customer_checked ac so c x o e s h in
    (o, e, (str_eq_iff o.user_id ac.user_id).0 mine, paid_for o.status paid)
