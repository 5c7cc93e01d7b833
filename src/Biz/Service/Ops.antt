-- ===== src/Biz/Service/Ops.antt =====
-- The operations on the catalog, the service orders and their acceptance.
use first_golang.Prelude.{ℕ, String, Bool, List, str_eq, if◌then◌else◌, ◌&◌, ◌&&◌, ◌||◌, not, ◌==◌}
use first_golang.Sql.Table.{insert, modify}
use first_golang.Sql.Listing.{listing, listing_asc}
use first_golang.Sql.Where.{matches}
use first_golang.Sql.Exec.{
  Action, Result, ok, err, unique, query, statement, ⊤, ◌>>=◌, ◌>>◌, now, random, update, ignore,
  pure,
}
use first_golang.Biz.Service.Defs.{
  ServiceCatalog, ServiceSku, ServiceOrder, ServiceMilestone, ServiceAcceptance, Tables,
  get_service_order, has_srv_no, srv_wait_confirm, srv_delivering, srv_wait_accept, srv_completed,
}

abbrev insert_catalog : ServiceCatalog → Tables → Result ℕ × Tables
insert_catalog x t =
    let catalogs' = insert x t.catalogs in (ok catalogs'.seq, record t { catalogs = catalogs' })

unfoldable pub create_service_catalog : ServiceCatalog → Action Tables (ℕ × ServiceCatalog)
create_service_catalog x = do
  let x' = record x { status = if str_eq x.status "" then "active" else x.status }
  id ← statement (insert_catalog x')
  pure (id, x')

unfoldable pub list_service_catalogs : Bool → Action Tables (List (ℕ × ServiceCatalog))
list_service_catalogs active_only =
    query (λ t. ok (listing_asc (λ e. not active_only || str_eq e.1.status "active") t.catalogs))

-- Every column is written, whatever the request leaves out.
unfoldable pub update_service_catalog : ℕ → ServiceCatalog → Action Tables ⊤
update_service_catalog id x = update (λ t. record t { catalogs = modify id (λ _. x) t.catalogs })

abbrev insert_sku : ServiceSku → Tables → Result ℕ × Tables
insert_sku x t = let skus' = insert x t.skus in (ok skus'.seq, record t { skus = skus' })

unfoldable pub add_service_sku : ServiceSku → Action Tables (ℕ × ServiceSku)
add_service_sku x = do id ← statement (insert_sku x); pure (id, x)

unfoldable pub list_service_skus : ℕ → Action Tables (List (ℕ × ServiceSku))
list_service_skus service_id =
    query (λ t. ok (listing_asc (λ e. e.1.service_id == service_id) t.skus))

abbrev insert_order : ServiceOrder → Tables → Result ℕ × Tables
insert_order x t =
    let orders' = insert x t.orders in
    if has_srv_no x.srv_no t.orders.rows
    then (err unique, t)
    else (ok orders'.seq, record t { orders = orders' })

unfoldable pub create_service_order : ServiceOrder → Action Tables (ℕ × ServiceOrder)
create_service_order x = do
  at ← now
  serial ← random
  let x' = record x {
    srv_no = "SRV" & serial;
    status = if str_eq x.status "" then srv_wait_confirm else x.status;
  }
  id ← statement (insert_order (record x' { created_at = at; updated_at = at }))
  made ← now
  pure (id, record x' { created_at = made; updated_at = made })

-- The WHERE clause of `ListServiceOrders`: the user counts only where `mine` is asked for.
abbrev pub order_shown : String → String → String → Bool → ℕ × ServiceOrder → Bool
order_shown user_id status owner_id mine (_, x) =
    (not mine || matches user_id x.user_id)
    && (matches owner_id x.owner_id && matches status x.status)

unfoldable pub list_service_orders :
    String → String → String → Bool → Action Tables (List (ℕ × ServiceOrder))
unfolding listing
list_service_orders user_id status owner_id mine =
    query (λ t. ok (listing 200 (order_shown user_id status owner_id mine) t.orders))

-- The row of a milestone that is done.
abbrev pub milestone_row : ℕ → String → ℕ → ServiceMilestone
milestone_row id name at = record {
  service_order_id = id;
  name = name;
  status = "done";
  due_at = at;
}

abbrev pub insert_milestone : ℕ → String → ℕ → Tables → Tables
insert_milestone id name at t = record t {
  milestones = insert (milestone_row id name at) t.milestones;
}

unfoldable pub add_milestone : ℕ → String → Action Tables ⊤
add_milestone id name = do at ← now; update (insert_milestone id name at)

abbrev pub set_status : ℕ → String → ℕ → Tables → Tables
set_status id to at t = record t {
  orders = modify id (λ x. record x { status = to; updated_at = at }) t.orders;
}

-- The part of `UpdateServiceOrderStatus` after its early returns.
unfoldable pub move_service_order : ℕ → String → String → Action Tables ⊤
unfolding add_milestone
move_service_order id from to = do
  at ← now
  update (set_status id to at)
  ignore (add_milestone id ("状态变更: " & from & " → " & to))

-- `UpdateServiceOrderStatus`: the operator and the note are not stored.
unfoldable pub update_service_order_status : ℕ → String → String → String → Action Tables ⊤
unfolding get_service_order move_service_order
update_service_order_status id to operator note = do
  cur ← get_service_order id
  if str_eq cur.status to then pure tt else move_service_order id cur.status to

abbrev pub set_owner : ℕ → String → ℕ → Tables → Tables
set_owner id owner_id at t = record t {
  orders =
      modify id (λ x. record x { owner_id = owner_id; status = srv_delivering; updated_at = at })
        t.orders;
}

unfoldable pub assign_service_owner : ℕ → String → String → Action Tables ⊤
unfolding add_milestone
assign_service_owner id owner_id operator = do
  at ← now
  update (set_owner id owner_id at)
  ignore (add_milestone id ("负责人分配: " & owner_id))

abbrev pub insert_acceptance : ServiceAcceptance → Tables → Tables
insert_acceptance x t = record t { acceptances = insert x t.acceptances }

-- The status that an acceptance asks for.
abbrev pub accepted_status : String → String
accepted_status result = if str_eq result "pass" then srv_completed else srv_wait_accept

unfoldable pub submit_acceptance : ℕ → String → String → Action Tables ⊤
unfolding update_service_order_status
submit_acceptance id result note = do
  at ← now
  update (
      insert_acceptance
        (record { service_order_id = id; result = result; note = note; accepted_at = at }))
  update_service_order_status id (accepted_status result) "system" ("验收:" & result & " " & note)
