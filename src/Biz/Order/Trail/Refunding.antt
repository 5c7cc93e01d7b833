-- ===== src/Biz/Order/Trail/Refunding.antt =====
-- Refunds and their audit, on the audit trail of the orders.
use first_golang.Prelude.{
  ℕ, suc, ◌≡◌, String, none, some, Bool, inl, inr, arith, if◌then◌else◌, Option-cases, ◌&◌,
}
use first_golang.Sql.Table.{Table, select, insert, modify}
use first_golang.Sql.Exec.{Conn, calm}
use first_golang.Biz.Order.Defs.{
  Refund, Tables, has_refund_no, order_paid, order_refunding, order_refunded,
}
use first_golang.Biz.Order.Ops.{update_order_status, create_refund, audit_refund}
use first_golang.Biz.Order.Trail.{IsTrailed}
use first_golang.Biz.Order.Trail.Run.{update-IsTrailed, IsTrailed-if}

with_refunds : (t : Tables) (r : Table Refund) → IsTrailed t → IsTrailed (record t { refunds = r })
with_refunds t r h = record {
  keyed = h.keyed;
  linked = h.linked;
  current = h.current;
  unborn = h.unborn;
}

module _ (r : Refund) (c : Conn Tables) where
  -- The connection once the refund is stored.
  abbrev pub refund_stored : Conn Tables
  refund_stored = record c {
    tables = record c.tables {
      refunds =
          insert
            (record r {
              refund_no = "REF" & c.nonce c.tick;
              status = "pending";
              audit_note = "";
              created_at = c.clock (suc c.tick);
              updated_at = c.clock (suc c.tick);
            })
            c.tables.refunds;
    };
    tick = suc (suc (suc c.tick));
  }

  pub create_refund-tables : (create_refund r (calm c)).1.tables ≡ (
      if has_refund_no ("REF" & c.nonce c.tick) c.tables.refunds.rows
      then c.tables
      else (update_order_status r.order_id order_refunding r.user_id "申请退款"
          (calm refund_stored)).1.tables)
  unfolding create_refund
  create_refund-tables = ground arith

  pub create_refund-IsTrailed : IsTrailed c.tables → IsTrailed (create_refund r (calm c)).1.tables
  create_refund-IsTrailed h = rw create_refund-tables (
      IsTrailed-if (has_refund_no ("REF" & c.nonce c.tick) c.tables.refunds.rows) _ _ h (
        update-IsTrailed r.order_id refund_stored (with_refunds c.tables _ h) order_refunding
          r.user_id "申请退款"))

-- What an audit stores in the refund, and the status that it asks for the order.
abbrev pub verdict : Bool → String
verdict approve = if approve then "completed" else "rejected"

abbrev pub outcome : Bool → String
outcome approve = if approve then order_refunded else order_paid

abbrev pub outcome_note : Bool → String → String
outcome_note approve note = if approve then "退款完成 " & note else "退款驳回 " & note

abbrev pub judged : Bool → String → ℕ → Refund → Refund
judged approve note at x = record x { status = verdict approve; audit_note = note; updated_at = at }

-- The connection once the verdict is stored.
abbrev pub audited : ℕ → Bool → String → Conn Tables → Conn Tables
audited id approve note c = record c {
  tables = record c.tables {
    refunds = modify id (judged approve note (c.clock (suc c.tick))) c.tables.refunds;
  };
  tick = suc (suc (suc c.tick));
}

module _ (id : ℕ) (approve : Bool) (operator note : String) (c : Conn Tables) where
  pub audit-found :
      (r : Refund)
      → select id c.tables.refunds ≡ some r
      → (audit_refund id approve operator note (calm c)).1.tables
        ≡ (update_order_status r.order_id
            (outcome approve)
            operator
            (outcome_note approve note)
            (calm (audited id approve note c))).1.tables
  unfolding audit_refund
  audit-found r e = ground arith

  audit-missing :
      select id c.tables.refunds ≡ none
      → (audit_refund id approve operator note (calm c)).1.tables ≡ c.tables
  unfolding audit_refund
  audit-missing e = ground arith

  pub audit-IsTrailed :
      IsTrailed c.tables → IsTrailed (audit_refund id approve operator note (calm c)).1.tables
  audit-IsTrailed h = elim (Option-cases (select id c.tables.refunds)) [
    | inl e ↦ rw (audit-missing e) h
    | inr (r, e) ↦ rw (audit-found r e) (
        update-IsTrailed r.order_id (audited id approve note c) (with_refunds c.tables _ h)
          (outcome approve) operator (outcome_note approve note))
  ]
