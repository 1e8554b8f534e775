-- ===== src/Business/Advance.antt =====
-- src/business/business.service.ts: the steps of the stock room, `advance` and `outbound`, with
-- `hasManagerFor`. The subscriptions that the phones receive are left out; the messages in the program
-- are kept.
pub mod Laws
use Prim.Native.String.{String}
use buchuqin_api.Prelude.{
  ℕ, Bool, true, false, List, [], ◌∷◌, ◌++◌, Option, none, some, ◌==◌, ◌&&◌, ◌||◌, not,
  if◌then◌else◌, is_some, opt_eq, sub_ℕ,
}
use buchuqin_api.Common.Status
use buchuqin_api.Common.Status.{Status, is_status, includes}
use buchuqin_api.Common.Timeline.{StepKey, TimelineStep, is_key, mark_timeline_step}
use buchuqin_api.Store.{
  Db, Tx, ◌>>=◌, ◌>>◌, pure, read, write, require, expect, won, Failure, bad_request, not_found,
  update_orders, find_order,
}
use buchuqin_api.Store.Table.{find_first, count_where}
use buchuqin_api.Store.Rows.{
  Order, OrderLine, Address, Staff, StaffRole, Product, InventoryTxn, TxnKind, LastMileMode,
}
use buchuqin_api.Business.Orders.{is_order_of}
use buchuqin_api.Business.Refunds.{is_as_read}
use buchuqin_api.Business.Pay.{notify}

-- `ADVANCE_MAP`
unfoldable pub advance_map : Status → Option (Status × String)
advance_map Status.paid = some (Status.picking, "仓库正在拣货")
advance_map Status.picking = some (Status.waiting_first_mile, "已出库，待配送员接单")
advance_map Status.waiting_first_mile = some (Status.first_mile, "配送中，骑手送往楼下")
advance_map Status.first_mile = some (Status.waiting_handover, "已到楼下，等待楼长交接")
advance_map Status.waiting_handover = some (Status.last_mile, "楼长送往寝室")
advance_map _ = none

-- `data` of a step to a state: the timeline is the one that was read.
abbrev pub step_to : ℕ → List TimelineStep → Status → String → Order → Order
step_to now timeline s text x = record x {
  status = s;
  status_text = text;
  timeline = mark_timeline_step now timeline s;
}

-- The conditional update of an order that was read in a state.
unfoldable pub move_order : ℕ → Order → List TimelineStep → Status → String → Tx (Unit {0})
unfolding mark_timeline_step
move_order now raw timeline s text = do
  n ← update_orders (is_as_read raw) (step_to now timeline s text)
  won n (bad_request "订单状态已变化")

-- `advance` behind the read of the order.
unfoldable pub advance_read : ℕ → Order → Tx (Unit {0})
unfolding move_order advance_map notify
advance_read now raw = do
  next ← expect (advance_map raw.status) (bad_request "当前状态不可推进履约")
  move_order now raw raw.timeline next.0 next.1
  notify raw.user_id next.1

-- `advance`
unfoldable pub advance : ℕ → ℕ → ℕ → Tx (Unit {0})
unfolding advance_read
advance now user_id id = do
  found ← read (λ db. find_first (is_order_of user_id id) db.orders)
  raw ← expect found (not_found "订单不存在")
  advance_read now raw

abbrev pub is_manager_staff : StaffRole → Bool
is_manager_staff StaffRole.building_manager = true
is_manager_staff StaffRole.intern_building_manager = true
is_manager_staff _ = false

abbrev pub manages : ℕ → Staff → Bool
manages building s =
    opt_eq s.building_id (some building) && is_manager_staff s.role && not s.deleted

-- `hasManagerFor`
unfoldable pub has_manager_for : Option ℕ → List Staff → Bool
has_manager_for none staff = false
has_manager_for (some building) staff = is_some (find_first (manages building) staff)

abbrev pub last_mile_mode_for : Bool → LastMileMode
last_mile_mode_for true = LastMileMode.building_manager
last_mile_mode_for false = LastMileMode.customer_pickup

-- The timeline of an order that its customer picks up downstairs.
abbrev pub pickup_step : TimelineStep → TimelineStep
pickup_step s =
    if is_key s.key StepKey.last_mile
    then record s { title = "楼下取货"; description = "配送员送达楼下后，等待您确认收货" }
    else s

abbrev pub is_handover : StepKey → Bool
is_handover StepKey.waiting_handover = true
is_handover StepKey.ready_to_deliver = true
is_handover _ = false

unfoldable pub pickup_timeline : List TimelineStep → List TimelineStep
pickup_timeline [] = []
pickup_timeline (s ∷ ss) =
    let rest = pickup_timeline ss in if is_handover s.key then rest else pickup_step s ∷ rest

unfoldable pub outbound_timeline : LastMileMode → List TimelineStep → List TimelineStep
unfolding pickup_timeline
outbound_timeline LastMileMode.customer_pickup tl = pickup_timeline tl
outbound_timeline LastMileMode.building_manager tl = tl

-- `data` of the update: the route of the last mile is fixed.
abbrev pub leave_stock : ℕ → LastMileMode → Order → Order → Order
leave_stock now mode raw x = record x {
  status = Status.waiting_first_mile;
  status_text = "已出库，待配送员接单";
  timeline = mark_timeline_step now (outbound_timeline mode raw.timeline) Status.waiting_first_mile;
  parcel = record raw.parcel { last_mile_mode = some mode };
}

abbrev pub exists_product : ℕ → List Product → Bool
exists_product id ps = is_some (find_first (λ (p : Product). p.id == id) ps)

abbrev pub out_txn : OrderLine → InventoryTxn
out_txn l = record { product_id = l.product_id; kind = TxnKind.out; delta = sub_ℕ 0 l.quantity }

-- The loop over the lines: a line whose product is gone is passed over.
unfoldable pub out_txns : List Product → List OrderLine → List InventoryTxn
out_txns ps [] = []
out_txns ps (l ∷ ls) =
    let rest = out_txns ps ls in if exists_product l.product_id ps then out_txn l ∷ rest else rest

-- The transaction of `outbound`.
unfoldable pub leave : ℕ → LastMileMode → Order → Tx (Unit {0})
unfolding outbound_timeline mark_timeline_step out_txns
leave now mode raw = do
  n ← update_orders (is_as_read raw) (leave_stock now mode raw)
  won n (bad_request "订单状态已变化")
  write λ db. record db { inventory_txns = db.inventory_txns ++ out_txns db.products raw.items }

abbrev pub outbound_failure : Status → Failure
outbound_failure s =
    if is_status s Status.waiting_first_mile
    then bad_request "该订单已出库，无需重复操作"
    else bad_request "当前状态不可出库"

-- `outbound` behind the read of the order.
unfoldable pub outbound_read : ℕ → Order → Tx (Unit {0})
unfolding leave has_manager_for notify
outbound_read now raw = do
  require (includes (Status.paid ∷ Status.picking ∷ []) raw.status) (outbound_failure raw.status)
  manager ← read (λ db. has_manager_for raw.address.building_id db.staff)
  leave now (last_mile_mode_for manager) raw
  notify raw.user_id "已出库，待配送员接单"

-- `outbound`
unfoldable pub outbound : ℕ → ℕ → Tx (Unit {0})
unfolding outbound_read
outbound now id = do
  found ← read (find_order id)
  raw ← expect found (not_found "订单不存在")
  outbound_read now raw
