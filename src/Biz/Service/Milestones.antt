-- ===== src/Biz/Service/Milestones.antt =====
-- The milestones that changes of a service order leave behind.
use first_golang.Prelude.{
  ℕ, suc, ◌≡◌, ◌≢◌, refl, ap, ◌∙◌, String, some, arith, str_eq, str_eq_iff, ==_iff, ◌&◌, inl, inr,
  Bool-cases,
}
use first_golang.Sql.Table.{select, modify, select-modify, select-insert, IsKeyed}
use first_golang.Sql.Exec.{Conn, calm}
use first_golang.Biz.Service.Defs.{ServiceOrder, ServiceMilestone, Tables, get_service_order}
use first_golang.Biz.Service.Ops.{
  update_service_order_status, move_service_order, add_milestone, milestone_row, insert_milestone,
  set_status,
}

module _ (id : ℕ) (to : String) (c : Conn Tables) where
  -- The order after the UPDATE of its status.
  abbrev moved : ServiceOrder → ServiceOrder
  moved x = record x { status = to; updated_at = c.clock (suc c.tick) }

  pub update_tables :
      (operator note : String) (x : ServiceOrder)
      → select id c.tables.orders ≡ some x
      → x.status ≢ to
      → (update_service_order_status id to operator note (calm c)).1.tables
        ≡ insert_milestone id
            ("状态变更: " & x.status & " → " & to)
            (c.clock (suc (suc (suc c.tick))))
            (set_status id to (c.clock (suc c.tick)) c.tables)
  unfolding update_service_order_status get_service_order move_service_order add_milestone
  update_tables operator note x e ne = ground (arith, str_eq_iff x.status to)

  pub select-moved :
      (x : ServiceOrder)
      → select id c.tables.orders ≡ some x
      → select id (modify id moved c.tables.orders) ≡ some (moved x)
  select-moved x e = ground (arith, select-modify c.tables.orders id id moved)

  -- Whatever status the order had, it has the new one in the end.
  pub reached :
      (operator note : String) (x : ServiceOrder)
      → select id c.tables.orders ≡ some x
      → (y : ServiceOrder) × (select id
            (update_service_order_status id to operator note (calm c)).1.tables.orders
          ≡ some y)
        × (y.status ≡ to)
        × (y.user_id ≡ x.user_id)
  reached operator note x e = elim (Bool-cases (str_eq x.status to)) [
    | inl s ↦ (
      x,
      unfold update_service_order_status get_service_order in ground arith,
      ground (arith, str_eq_iff x.status to),
      refl,
    )
    | inr s ↦ (
      moved x,
      ap (select id) (
            ap (λ t. t.orders)
              (update_tables operator note x e (ground (arith, str_eq_iff x.status to))))
          ∙ select-moved x e,
      refl,
      refl,
    )
  ]

-- With a driver that does not fail, a change of a service order to another status stores it, leaves
-- every other order as it is, and adds a milestone that is done and names both statuses.
pub status_milestone :
    (id other : ℕ) (to operator note : String) (x : ServiceOrder) (c : Conn Tables)
    → select id c.tables.orders ≡ some x
    → x.status ≢ to
    → id ≢ other
    → IsKeyed c.tables.milestones
    → ((y : ServiceOrder) × (select id
            (update_service_order_status id to operator note (calm c)).1.tables.orders
          ≡ some y)
        × (y.status ≡ to)
        × (y.user_id ≡ x.user_id))
      × (select other (update_service_order_status id to operator note (calm c)).1.tables.orders
          ≡ select other c.tables.orders)
      × ((k : ServiceMilestone) × (select
              (suc c.tables.milestones.seq)
              (update_service_order_status id to operator note (calm c)).1.tables.milestones
            ≡ some k)
          × (k.service_order_id ≡ id)
          × (k.status ≡ "done")
          × (k.name ≡ "状态变更: " & x.status & " → " & to))
status_milestone id other to operator note x c e ne apart keyed =
    let after = update_tables id to c operator note x e ne in
    let name = "状态变更: " & x.status & " → " & to in
    let row = milestone_row id name (c.clock (suc (suc (suc c.tick)))) in
    let seq = suc c.tables.milestones.seq in
    (
      reached id to c operator note x e,
      ap (select other) (ap (λ t. t.orders) after)
          ∙ ground (arith, select-modify c.tables.orders id other (moved id to c), ==_iff id other),
      (
        row,
        ap (select seq) (ap (λ t. t.milestones) after)
            ∙ ground (arith, select-insert c.tables.milestones seq row keyed, ==_iff seq seq),
        refl,
        refl,
        refl,
      ),
    )
