-- ===== src/Biz/Order/Trail/History.antt =====
-- Whole histories of the order tables, from the empty database on.
use first_golang.Prelude.{ℕ, ◌≡◌, refl, sym, String, Bool, some, List, [], ◌∷◌, arith, ◌∙◌}
use mathlib.Core.Path.{subst}
use first_golang.Sql.Table.{empty, select}
use first_golang.Sql.Exec.{Conn}
use first_golang.Sql.Steady.{IsSteady, steady_rules}
use first_golang.Biz.Order.Defs.{Order, Refund, Tables}
use first_golang.Biz.Order.Ops.{
  create_order, update_order_status, pay_order, create_refund, audit_refund,
}
use first_golang.Biz.Order.Trail.{IsTrailed, replay, Linked}
use first_golang.Biz.Order.Trail.Run.{update-IsTrailed, pay-IsTrailed, create-IsTrailed}
use first_golang.Biz.Order.Trail.Refunding.{create_refund-IsTrailed, audit-IsTrailed}
use first_golang.Sql.Exec.{never, calm}

-- A call of an operation of the store that changes orders or refunds.
pub data Op : Type 0 where
  create : Order → Op
  update_status : ℕ → String → String → String → Op
  pay : ℕ → String → String → Op
  refund : Refund → Op
  audit : ℕ → Bool → String → String → Op

unfoldable pub perform : Op → Conn Tables → Conn Tables
perform (create o) c = (create_order o c).1
perform (update_status id to operator note) c = (update_order_status id to operator note c).1
perform (pay id channel pay_no) c = (pay_order id channel pay_no c).1
perform (refund r) c = (create_refund r c).1
perform (audit id approve operator note) c = (audit_refund id approve operator note c).1

unfoldable pub run : List Op → Conn Tables → Conn Tables
unfolding perform
run [] c = c
run (op ∷ ops) c = run ops (perform op c)

-- No operation mends or breaks the driver.
update-IsSteady :
    (id : ℕ) (to operator note : String) → IsSteady (update_order_status id to operator note)
unfolding update_order_status
update-IsSteady id to operator note = search steady_rules depth 12

audit-IsSteady :
    (id : ℕ) (approve : Bool) (operator note : String)
    → IsSteady (audit_refund id approve operator note)
unfolding audit_refund
audit-IsSteady id approve operator note = search (steady_rules, update-IsSteady) depth 12

create_refund-IsSteady : (r : Refund) → IsSteady (create_refund r)
unfolding create_refund
create_refund-IsSteady r = search (steady_rules, update-IsSteady) depth 12

perform-fails : (op : Op) (c : Conn Tables) → (perform op c).fails ≡ c.fails
unfolding perform create_order pay_order
perform-fails (create o) c = ground arith
perform-fails (update_status id to operator note) c = (update-IsSteady id to operator note).at c
perform-fails (pay id channel pay_no) c = ground arith
perform-fails (refund r) c = (create_refund-IsSteady r).at c
perform-fails (audit id approve operator note) c = (audit-IsSteady id approve operator note).at c

calm-IsTrailed :
    (op : Op) (c : Conn Tables) → IsTrailed c.tables → IsTrailed (perform op (calm c)).tables
unfolding perform
calm-IsTrailed (create o) c h = create-IsTrailed o c h
calm-IsTrailed (update_status id to operator note) c h = update-IsTrailed id c h to operator note
calm-IsTrailed (pay id channel pay_no) c h = pay-IsTrailed id c h channel pay_no
calm-IsTrailed (refund r) c h = create_refund-IsTrailed r c h
calm-IsTrailed (audit id approve operator note) c h = audit-IsTrailed id approve operator note c h

perform-IsTrailed :
    (op : Op) (c : Conn Tables)
    → c.fails ≡ never
    → IsTrailed c.tables
    → IsTrailed (perform op c).tables
perform-IsTrailed op c e h =
    subst (λ f. IsTrailed (perform op (record c { fails = f })).tables) (sym e)
      (calm-IsTrailed op c h)

run-IsTrailed :
    (ops : List Op) (c : Conn Tables)
    → c.fails ≡ never
    → IsTrailed c.tables
    → IsTrailed (run ops c).tables
unfolding run
run-IsTrailed [] c e h = h
run-IsTrailed (op ∷ ops) c e h =
    run-IsTrailed ops (perform op c) (perform-fails op c ∙ e) (perform-IsTrailed op c e h)

-- The tables of a new database.
unfoldable pub no_tables : Tables
unfolding empty
no_tables = record { orders = empty; order_logs = empty; refunds = empty }

no_tables-IsTrailed : IsTrailed no_tables
unfolding no_tables replay select
no_tables-IsTrailed = record {
  keyed = tt;
  linked = λ id. tt;
  current = λ id o e. cc;
  unborn = λ id p. refl;
}

-- Whatever operations run on a new database whose driver does not fail, the log of each order is a
-- chain from the empty status on, and every order there is has the status in which its log ends.
pub run_audit_trail :
    (ops : List Op) (c : Conn Tables) (id : ℕ)
    → c.tables ≡ no_tables
    → c.fails ≡ never
    → Linked id "" (run ops c).tables.order_logs.rows
      × ((o : Order)
          → select id (run ops c).tables.orders ≡ some o
          → replay id "" (run ops c).tables.order_logs.rows ≡ o.status)
run_audit_trail ops c id et ef =
    let h = run-IsTrailed ops c ef (rw et no_tables-IsTrailed) in (h.linked id, h.current id)
