-- ===== src/Biz/Order/Refunds.antt =====
-- Refund requests and their audit.
use first_golang.Prelude.{
  ℕ, suc, ◌≡◌, ◌≢◌, ◌⊎◌, inl, inr, refl, String, none, some, Bool, true, false, arith, str_eq,
  str_eq_iff, Bool-cases, Option-cases, if◌then◌else◌, ◌&◌, List, sym, subst,
}
use first_golang.Prelude.Int.{pos, ◌≤ℤ◌}
use first_golang.Sql.Table.{select, select-modify}
use first_golang.Sql.Exec.{Conn, ok}
use first_golang.Biz.Order.Defs.{Order, Refund, Tables, has_refund_no, order_refunding}
use first_golang.Biz.Order.Ops.{update_order_status, create_refund, audit_refund}
use first_golang.Biz.Order.Lists.{AuthCtx, created, request_refund, refund_barred}
use first_golang.Biz.Order.Trail.Refunding.{
  refund_stored, create_refund-tables, audited, judged, outcome, outcome_note, audit-found,
}
use first_golang.Sql.Exec.{calm}
use first_golang.Biz.Order.Filed.{IsFiled, Holds, created-from, created-stored}
use first_golang.Biz.Order.Again.{IsRefunding, request_each, each-IsRefunding}

-- What the handler has checked when it answers `created`.
checks :
    (ac : AuthCtx) (rf : Refund) (c : Conn Tables) (x : ℕ × Refund) (o : Order)
    → select rf.order_id c.tables.orders ≡ some o
    → (request_refund ac rf c).0 ≡ created x
    → ((o.user_id ≡ ac.user_id) ⊎ (ac.is_staff ≡ true))
      × (refund_barred o.status ≡ false)
      × (pos 1 ≤ℤ rf.amount)
      × (rf.amount ≤ℤ o.pay_amount)
      × ((create_refund (record rf { user_id = ac.user_id }) (record c { tick = suc c.tick })).0
          ≡ ok x)
unfolding request_refund
checks ac rf c x o e h = ground (arith, str_eq_iff o.user_id ac.user_id)

-- What the request leaves behind is what `create_refund` does.
created-tables :
    (ac : AuthCtx) (rf : Refund) (c : Conn Tables) (x : ℕ × Refund)
    → (request_refund ac rf c).0 ≡ created x
    → (request_refund ac rf c).1
      ≡ (create_refund (record rf { user_id = ac.user_id }) (record c { tick = suc c.tick })).1
unfolding request_refund
created-tables ac rf c x h = ground arith

-- A refund that is created is for an order that exists and belongs to the caller, unless the caller
-- is staff; the order is in a status that may be refunded, and the amount is positive and at most
-- what was paid. The answer, and the row that is stored under the key of the answer, are for that
-- order, with the amount and the reason asked for, pending, and filed under the caller.
pub refund_guarded :
    (ac : AuthCtx) (rf : Refund) (c : Conn Tables) (x : ℕ × Refund)
    → (request_refund ac rf c).0 ≡ created x
    → (o : Order) × (select rf.order_id c.tables.orders ≡ some o)
      × ((o.user_id ≡ ac.user_id) ⊎ (ac.is_staff ≡ true))
      × (refund_barred o.status ≡ false)
      × (pos 1 ≤ℤ rf.amount)
      × (rf.amount ≤ℤ o.pay_amount)
      × IsFiled (record rf { user_id = ac.user_id }) x.1
      × Holds (record rf { user_id = ac.user_id }) x.0 (request_refund ac rf c).1.tables
refund_guarded ac rf c x h = elim (Option-cases (select rf.order_id c.tables.orders)) [
  | inl e ↦ absurd (unfold request_refund in ground arith)
  | inr (o, e) ↦
      let (owner, barred, low, high, made) = checks ac rf c x o e h in
      let mine : Refund = record rf { user_id = ac.user_id } in
      let after : Conn Tables = record c { tick = suc c.tick } in
      (
        o,
        e,
        owner,
        barred,
        low,
        high,
        created-from mine after x made,
        subst (λ z. Holds mine x.0 z.tables) (sym (created-tables ac rf c x h))
            (created-stored mine after x made),
      )
]

-- With a driver that does not fail, an order that is there ends in the status asked for.
updated :
    (id : ℕ) (to operator note : String) (o : Order) (c : Conn Tables)
    → select id c.tables.orders ≡ some o
    → (x : Order) × (select id (update_order_status id to operator note (calm c)).1.tables.orders
        ≡ some x)
      × (x.status ≡ to)
      × ((update_order_status id to operator note (calm c)).1.tables.refunds ≡ c.tables.refunds)
updated id to operator note o c e = elim (Bool-cases (str_eq o.status to)) [
  | inl same ↦ (
    o,
    unfold update_order_status in ground arith,
    (str_eq_iff o.status to).0 same,
    unfold update_order_status in ground arith,
  )
  | inr other ↦ elim (Bool-cases (str_eq to "paid")) [
    | inl p ↦
        let f : Order → Order = λ x. record x {
          status = to;
          updated_at = c.clock (suc (suc c.tick));
          paid_at = some (c.clock (suc c.tick));
        } in
        (
          f o,
          unfold update_order_status in ground (arith, select-modify c.tables.orders id id f),
          refl,
          unfold update_order_status in ground arith,
        )
    | inr n ↦
        let f : Order → Order =
          λ x. record x { status = to; updated_at = c.clock (suc c.tick); paid_at = none } in
        (
          f o,
          unfold update_order_status in ground (arith, select-modify c.tables.orders id id f),
          refl,
          unfold update_order_status in ground arith,
        )
  ]
]

-- With a driver that does not fail, an audit of a refund of an order that is there stores the
-- verdict and the note, whatever the refund's status was; the order becomes `refunded` if the audit
-- approves, and `paid` if it rejects, whatever status the order had before.
pub audit_verdict :
    (id : ℕ) (approve : Bool) (operator note : String) (r : Refund) (o : Order) (c : Conn Tables)
    → select id c.tables.refunds ≡ some r
    → select r.order_id c.tables.orders ≡ some o
    → let t = (audit_refund id approve operator note (calm c)).1.tables in
      (x : Order) × (y : Refund) × (select r.order_id t.orders ≡ some x)
      × (x.status ≡ (if approve then "refunded" else "paid"))
      × (select id t.refunds ≡ some y)
      × (y.status ≡ (if approve then "completed" else "rejected"))
      × (y.audit_note ≡ note)
      × (y.amount ≡ r.amount)
audit_verdict id approve operator note r o c er eo =
    let (x, found, status, refunds) =
      updated r.order_id (outcome approve) operator (outcome_note approve note) o
        (audited id approve note c) eo in
    let f = judged approve note (c.clock (suc c.tick)) in
    rw (audit-found id approve operator note c r er) (
      x,
      f r,
      found,
      status,
      rw refunds (ground (arith, select-modify c.tables.refunds id id f)),
      refl,
      refl,
      refl,
    )

accepted :
    (ac : AuthCtx) (rf : Refund) (c : Conn Tables) (x : ℕ × Refund)
    → (request_refund ac rf c).0 ≡ created x
    → (o : Order) × (select rf.order_id c.tables.orders ≡ some o) × (refund_barred o.status ≡ false)
accepted ac rf c x h = let g = refund_guarded ac rf c x h in (g.0, g.1, g.3)

-- The order of a refund that has been created is being refunded.
created_refunding :
    (r : Refund) (c : Conn Tables) (x : ℕ × Refund) (o : Order)
    → select r.order_id c.tables.orders ≡ some o
    → (create_refund r (calm c)).0 ≡ ok x
    → (z : Order) × (select r.order_id (create_refund r (calm c)).1.tables.orders ≡ some z)
      × (z.status ≡ order_refunding)
created_refunding r c x o e h =
    let fresh : has_refund_no ("REF" & c.nonce c.tick) c.tables.refunds.rows ≡ false =
      unfold create_refund in ground arith in
    let (z, found, status, _refunds) =
      updated r.order_id order_refunding r.user_id "申请退款" o (refund_stored r c) e in
    (z, rw (create_refund-tables r c) (rw fresh found), status)

barred_refunding : (z : Order) → z.status ≡ order_refunding → refund_barred z.status ≡ true
barred_refunding z e = rw e

-- With a driver that does not fail, once a refund of an order has been created, none of the requests
-- for refunds that follow creates another one for that order, however many of them come, whoever
-- asks, for whatever amount and for whichever other orders in between; until something other than a
-- request for a refund, such as an audit, changes the order.
pub refund_once :
    (ac ac' : AuthCtx) (rf rf' : Refund) (more : List (AuthCtx × Refund)) (c : Conn Tables)
    (x y : ℕ × Refund)
    → rf'.order_id ≡ rf.order_id
    → (request_refund ac rf (calm c)).0 ≡ created x
    → (request_refund ac' rf' (request_each more (request_refund ac rf (calm c)).1)).0 ≢ created y
refund_once ac ac' rf rf' more c x y same h k =
    let (o, e, _open) = accepted ac rf (calm c) x h in
    let next = record c { tick = suc c.tick } in
    let made = checks ac rf (calm c) x o e h in
    let first : IsRefunding rf.order_id (request_refund ac rf (calm c)).1.tables =
      subst (λ z. IsRefunding rf.order_id z.tables) (sym (created-tables ac rf (calm c) x h))
        (created_refunding (record rf { user_id = ac.user_id }) next x o e made.4) in
    let after = request_each more (request_refund ac rf (calm c)).1 in
    let (z, found, status) =
      each-IsRefunding rf.order_id more (request_refund ac rf (calm c)).1 first in
    let (w, there, barred) = accepted ac' rf' after y k in
    cc (same, found, barred_refunding z status)
