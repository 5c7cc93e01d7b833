-- ===== src/Biz/Service/Acceptance.antt =====
-- What the acceptance of a service order does.
use first_golang.Prelude.{
  ℕ, suc, ◌≡◌, refl, ap, ◌∙◌, String, none, some, arith, ==_iff, ◌&◌, str_eq, if◌then◌else◌,
}
use first_golang.Sql.Table.{select, select-insert, IsKeyed}
use first_golang.Sql.Exec.{Conn, err, no_rows, calm}
use first_golang.Biz.Service.Defs.{ServiceOrder, ServiceAcceptance, Tables, get_service_order}
use first_golang.Biz.Service.Ops.{
  submit_acceptance, update_service_order_status, accepted_status, insert_acceptance,
  move_service_order, add_milestone,
}
use first_golang.Biz.Service.Milestones.{reached}

module _ (id : ℕ) (result note : String) (c : Conn Tables) where
  abbrev row : ServiceAcceptance
  row = record { service_order_id = id; result = result; note = note; accepted_at = c.clock c.tick }

  -- The connection when the status is changed.
  abbrev recorded : Conn Tables
  recorded = record c { tables = insert_acceptance row c.tables; tick = suc (suc c.tick) }

update_acceptances :
    (id : ℕ) (to operator note : String) (c : Conn Tables)
    → (update_service_order_status id to operator note c).1.tables.acceptances
      ≡ c.tables.acceptances
unfolding update_service_order_status get_service_order move_service_order add_milestone
update_acceptances id to operator note c = ground arith

-- With a driver that does not fail, an acceptance is stored in any case. A service order that is
-- there becomes `COMPLETED` if the result is `pass` and `WAIT_ACCEPT` if it is any other, from
-- whatever status; where there is no such order the error is returned after the acceptance is
-- stored.
pub acceptance_outcome :
    (id : ℕ) (result note : String) (c : Conn Tables)
    → IsKeyed c.tables.acceptances
    → ((k : ServiceAcceptance) × (select
            (suc c.tables.acceptances.seq)
            (submit_acceptance id result note (calm c)).1.tables.acceptances
          ≡ some k)
        × (k.service_order_id ≡ id)
        × (k.result ≡ result))
      × ((x : ServiceOrder)
          → select id c.tables.orders ≡ some x
          → (y : ServiceOrder) × (select id
                (submit_acceptance id result note (calm c)).1.tables.orders
              ≡ some y)
            × (y.status ≡ (if str_eq result "pass" then "COMPLETED" else "WAIT_ACCEPT"))
            × (y.user_id ≡ x.user_id))
      × (select id c.tables.orders ≡ none
          → (submit_acceptance id result note (calm c)).0 ≡ err no_rows)
unfolding submit_acceptance
acceptance_outcome id result note c keyed =
    let d = recorded id result note c in
    let to = accepted_status result in
    let text = "验收:" & result & " " & note in
    let seq = suc c.tables.acceptances.seq in
    (
      (
        row id result note c,
        ap (select seq) (update_acceptances id to "system" text (calm d))
            ∙ ground (
              arith,
              select-insert c.tables.acceptances seq (row id result note c) keyed,
              ==_iff seq seq,
            ),
        refl,
        refl,
      ),
      λ x e. reached id to d "system" text x e,
      λ e. unfold update_service_order_status get_service_order in ground arith,
    )
