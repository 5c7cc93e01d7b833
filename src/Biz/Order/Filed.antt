-- ===== src/Biz/Order/Filed.antt =====
-- The row that CreateRefund stores (internal/biz/order.go).
use first_golang.Prelude.{ℕ, suc, ◌≡◌, inl, refl, String, Bool, true, false, arith, ◌&◌, List}
use first_golang.Sql.Table.{insert}
use first_golang.Sql.Listing.{In, insert-In}
use first_golang.Sql.Keeps.{Keeps, keeps_rules, Keeps-update, Keeps-random, Keeps-now, Keeps-ignore}
use first_golang.Sql.Leads.{
  Leads, Returns, Leads-then, Leads-bind, Leads-statement, Leads-pure, Leads-returns,
}
use first_golang.Sql.Exec.{Conn, ok}
use first_golang.Biz.Order.Defs.{
  Refund, Tables, has_refund_no, order_refunding, log_order_status, get_order,
}
use first_golang.Biz.Order.Ops.{update_order_status, set_order_status, create_refund, insert_refund}
use first_golang.Sql.Exec.{random, now, statement, ignore}

-- A change of an order's status leaves the refunds.
module _ (Q : List (ℕ × Refund) → Type 0) where
  update-Keeps :
      (id : ℕ) (to operator note : String)
      → Keeps (λ t. Q t.refunds.rows) (update_order_status id to operator note)
  unfolding update_order_status set_order_status log_order_status get_order
  update-Keeps id to operator note = search (keeps_rules, Keeps-update) depth 16

-- The row of a refund that is created: pending, and otherwise as asked for.
abbrev pub IsFiled : Refund → Refund → Type 0
IsFiled r y =
    (y.order_id ≡ r.order_id)
    × (y.user_id ≡ r.user_id)
    × (y.amount ≡ r.amount)
    × (y.reason ≡ r.reason)
    × (y.status ≡ "pending")

pub created-from :
    (r : Refund) (c : Conn Tables) (x : ℕ × Refund) → (create_refund r c).0 ≡ ok x → IsFiled r x.1
unfolding create_refund
created-from r c x h = ground arith

-- The row that `create_refund` inserts.
abbrev filed : Refund → String → ℕ → Refund
filed r serial at = record r {
  refund_no = "REF" & serial;
  status = "pending";
  audit_note = "";
  created_at = at;
  updated_at = at;
}

-- The row is in the table under the key.
abbrev pub Holds : Refund → ℕ → Tables → Type 0
Holds r id t = (y : Refund) × In (id, y) t.refunds.rows × IsFiled r y

insert_refund-Holds :
    (r y : Refund) (t : Tables) (b : Bool)
    → IsFiled r y
    → has_refund_no y.refund_no t.refunds.rows ≡ b
    → Returns (Holds r) (insert_refund y t).0 (insert_refund y t).1
unfolding insert
insert_refund-Holds r y t true h e = rw e tt
insert_refund-Holds r y t false h e =
    rw e (y, (insert-In y t.refunds (suc t.refunds.seq, y)).1 (inl refl), h)

create_refund-Leads :
    (r : Refund) → Leads (λ t. Unit) (Returns (λ x t. Holds r x.0 t)) (create_refund r)
unfolding create_refund
create_refund-Leads r = Leads-then random _ Keeps-random λ serial. Leads-then now _ Keeps-now λ at.
    Leads-bind {M = Returns (Holds r)} (statement (insert_refund (filed r serial at))) _
      (Leads-statement (insert_refund (filed r serial at))
        (λ t _. insert_refund-Holds r (filed r serial at) t _ (refl, refl, refl, refl, refl) refl)
        (λ t _. tt))
      (λ id.
        Leads-then (ignore (update_order_status r.order_id order_refunding r.user_id "申请退款")) _
          (Keeps-ignore _ (
            update-Keeps (λ rows. (y : Refund) × In (id, y) rows × IsFiled r y) r.order_id
              order_refunding r.user_id "申请退款"))
          (λ _.
            Leads-pure (id, record r { refund_no = "REF" & serial; status = "pending" })
              (λ t h. h)))
      (λ e t _. tt)

pub created-stored :
    (r : Refund) (c : Conn Tables) (x : ℕ × Refund)
    → (create_refund r c).0 ≡ ok x
    → Holds r x.0 (create_refund r c).1.tables
created-stored r c x h = Leads-returns (create_refund r) (create_refund-Leads r) c x tt h
