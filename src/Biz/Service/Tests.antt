-- ===== src/Biz/Service/Tests.antt =====
-- One service order of alice that is being delivered.
use first_golang.Prelude.{◌⊎◌, ◌≡◌, refl, none, some, [], ◌∷◌, arith, str_eq_iff, ◌&◌, false, ℕ}
use first_golang.Sql.Table.{select, insert}
use first_golang.Sql.Exec.{Conn, err, no_rows, never, calm}
use first_golang.Prelude.Int.{pos}
use first_golang.Biz.Order.{Order, get_order}
use first_golang.Biz.Service.Request.{
  Database, Caller, request_service, service_order_needs_payment,
}
use first_golang.Biz.Service.Defs.{ServiceOrder, ServiceMilestone, ServiceAcceptance, Tables}
use first_golang.Biz.Service.Ops.{
  create_service_order, update_service_order_status, submit_acceptance,
}
use first_golang.Biz.Service.Milestones.{status_milestone}
use first_golang.Biz.Service.Acceptance.{acceptance_outcome}

abbrev service_order : ServiceOrder
service_order = record {
  srv_no = "SRV1";
  order_id = 1;
  service_id = 1;
  sku_id = 0;
  user_id = "alice";
  owner_id = "staff";
  status = "DELIVERING";
  requirement = "";
  created_at = 10;
  updated_at = 10;
}

abbrev office : Conn Tables
office = record {
  tables = record {
    catalogs = record { rows = []; seq = 0 };
    skus = record { rows = []; seq = 0 };
    orders = record { rows = (1, service_order) ∷ []; seq = 1 };
    milestones = record { rows = []; seq = 0 };
    acceptances = record { rows = []; seq = 0 };
  };
  tick = 0;
  fails = never;
  clock = λ n. n;
  nonce = λ _. "7";
}

status_milestone_example :
    ((y : ServiceOrder) × (select 1
          (update_service_order_status 1 "WAIT_ACCEPT" "bob" "" (calm office)).1.tables.orders
        ≡ some y)
      × (y.status ≡ "WAIT_ACCEPT")
      × (y.user_id ≡ "alice"))
    × (select 2 (update_service_order_status 1 "WAIT_ACCEPT" "bob" "" (calm office)).1.tables.orders
        ≡ select 2 office.tables.orders)
    × ((k : ServiceMilestone) × (select 1
            (update_service_order_status 1 "WAIT_ACCEPT" "bob" "" (calm office)).1.tables.milestones
          ≡ some k)
        × (k.service_order_id ≡ 1)
        × (k.status ≡ "done")
        × (k.name ≡ "状态变更: " & "DELIVERING" & " → " & "WAIT_ACCEPT"))
unfolding select
status_milestone_example =
    status_milestone 1 2 "WAIT_ACCEPT" "bob" "" service_order office refl
      (ground (arith, str_eq_iff "DELIVERING" "WAIT_ACCEPT")) (omega arith) tt

acceptance_outcome_example :
    ((k : ServiceAcceptance) × (select 1
          (submit_acceptance 1 "pass" "" (calm office)).1.tables.acceptances
        ≡ some k)
      × (k.service_order_id ≡ 1)
      × (k.result ≡ "pass"))
    × ((x : ServiceOrder)
        → select 1 office.tables.orders ≡ some x
        → (y : ServiceOrder) × (select 1
              (submit_acceptance 1 "pass" "" (calm office)).1.tables.orders
            ≡ some y)
          × (y.status ≡ "COMPLETED")
          × (y.user_id ≡ x.user_id))
    × (select 1 office.tables.orders ≡ none
        → (submit_acceptance 1 "pass" "" (calm office)).0 ≡ err no_rows)
acceptance_outcome_example = acceptance_outcome 1 "pass" "" office tt

abbrev paid_order : Order
paid_order = record {
  order_no = "ORD1";
  user_id = "alice";
  type = "服务";
  title = "consulting";
  amount = pos 5000;
  pay_amount = pos 4500;
  status = "paid";
  pay_channel = "";
  pay_no = "";
  note = "";
  created_at = 10;
  updated_at = 10;
  paid_at = some 11;
}

abbrev database : Conn Database
database = record {
  tables = record {
    orders = record {
      orders = record { rows = (1, paid_order) ∷ []; seq = 1 };
      order_logs = record { rows = []; seq = 0 };
      refunds = record { rows = []; seq = 0 };
    };
    rbac = record {
      roles = record { rows = []; seq = 0 };
      permissions = record { rows = []; seq = 0 };
      user_roles = [];
      role_permissions = [];
    };
    services = office.tables;
  };
  tick = 0;
  fails = never;
  clock = λ n. n;
  nonce = λ _. "7";
}

abbrev alice : Caller
alice = record { user_id = "alice"; is_staff = false }

abbrev made_order : ℕ × ServiceOrder
made_order = (2, record service_order { srv_no = "SRV7"; created_at = 4; updated_at = 4 })

service_order_needs_payment_example :
    (o : Order) × (select 1 database.tables.orders.orders ≡ some o)
    × (o.user_id ≡ "alice")
    × ((o.status ≡ "paid")
        ⊎ ((o.status ≡ "delivering") ⊎ ((o.status ≡ "delivered") ⊎ (o.status ≡ "completed"))))
unfolding request_service get_order create_service_order select insert
service_order_needs_payment_example =
    service_order_needs_payment alice service_order database made_order refl refl
