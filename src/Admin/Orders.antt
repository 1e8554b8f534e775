-- ===== src/Admin/Orders.antt =====
-- src/admin/admin.service.ts: what the back office does with an order, `orderAction` with the deliveries of
-- the shop's own staff, and `updateOrderStatus`. The audit log is left out.
pub mod Edges
pub mod Actions
pub mod Manual
use Prim.Native.String.{String}
use buchuqin_api.Prelude.{
  ℕ, Bool, true, false, List, [], ◌∷◌, Option, none, some, ◌==◌, ◌&&◌, ◌||◌, not, if◌then◌else◌,
  is_some,
}
use buchuqin_api.Common.Status
use buchuqin_api.Common.Status.{Status, is_status, includes, order_statuses, order_status_text}
use buchuqin_api.Common.Timeline.{mark_timeline_step}
use buchuqin_api.Tenancy.{campus_staff_delivery}
use buchuqin_api.Store.{
  Db, Tx, ◌>>=◌, ◌>>◌, pure, read, write, require, expect, won, when, discard, Failure, bad_request,
  not_found, update_orders, has_order_id,
}
use buchuqin_api.Store.Table.{find_first}
use buchuqin_api.Store.Rows.{Order}
use buchuqin_api.Commission.Record.{record_for_delivered}
use buchuqin_api.Business.Orders.{cancel, release_coupon}
use buchuqin_api.Business.Refunds.{is_as_read}
use buchuqin_api.Business.Advance.{advance, outbound, step_to, move_order}

-- The actions of `orderAction`; any other text is `unknown`.
pub data OrderAction : Type 0 where
  cancel_order advance_order outbound_order mark_exception staff_deliver staff_complete unknown :
      OrderAction

-- `STAFF_DELIVERY_ACTIONS`
unfoldable pub staff_next : Bool → Status → Option Status
staff_next true Status.first_mile = some Status.delivered
staff_next true Status.last_mile = some Status.delivered
staff_next false Status.waiting_first_mile = some Status.first_mile
staff_next _ _ = none

-- `ORDER_STATUS_TEXT[status]`
abbrev pub status_text_of : Status → String
status_text_of s = elim (order_status_text s) [ none ↦ "" | some t ↦ t ]

abbrev pub staff_failure : Status → Failure
staff_failure s =
    if includes (Status.paid ∷ Status.picking ∷ []) s
    then bad_request "订单尚未出库，请先在管理后台完成出库"
    else bad_request "不能执行此操作"

-- A delivery by the staff; `complete` tells the second action from the first.
unfoldable pub staff_step : ℕ → Bool → Order → Tx (Unit {0})
unfolding campus_staff_delivery staff_next move_order order_status_text
staff_step now complete o = do
  staffed ← read (λ db. campus_staff_delivery db (some o.campus_id))
  require staffed (bad_request "该校区为骑手配送模式，无员工配送操作")
  next ← expect (staff_next complete o.status) (staff_failure o.status)
  move_order now o o.timeline next (status_text_of next)

abbrev pub make_exception : Order → Order
make_exception x = record x { status = Status.exception; status_text = "运营标记异常" }

-- `mark-exception`: an update by the identifier alone.
unfoldable pub mark_order_exception : ℕ → Tx (Unit {0})
mark_order_exception id = discard (update_orders (has_order_id id) make_exception)

unfoldable pub act : ℕ → OrderAction → Order → Tx (Unit {0})
unfolding cancel advance outbound mark_order_exception staff_step
act now cancel_order o = cancel o.user_id o.id
act now advance_order o = advance now o.user_id o.id
act now outbound_order o = outbound now o.id
act now mark_exception o = mark_order_exception o.id
act now staff_deliver o = staff_step now false o
act now staff_complete o = staff_step now true o
act now unknown o = require false (bad_request "不支持的订单操作")

-- `order(id, campusId)`: `none` is the campus of whoever sees all of them.
abbrev pub is_visible : Option ℕ → Order → Bool
is_visible none o = true
is_visible (some c) o = o.campus_id == c

unfoldable pub read_order : ℕ → Option ℕ → Tx Order
read_order id scope = do
  found ← read (λ db. find_first (λ o. has_order_id id o && is_visible scope o) db.orders)
  expect found (not_found "订单不存在")

-- `orderAction`
unfoldable pub order_action : ℕ → ℕ → OrderAction → Option ℕ → Tx (Unit {0})
unfolding read_order act
order_action now id action scope = read_order id scope >>= act now action

-- `FROZEN_BEFORE_STATUSES`
abbrev pub frozen_statuses : List Status
frozen_statuses =
    Status.pending_payment ∷ Status.cancelled ∷ Status.refunded ∷ Status.completed
    ∷ Status.after_sales ∷ []

-- `body.status === 'delivered' || body.status === 'completed'`
abbrev pub is_receipt : Status → Bool
is_receipt s = is_status s Status.delivered || is_status s Status.completed

abbrev pub manual_text : Status → String
manual_text Status.delivered = "已送达，待确认收货"
manual_text s = status_text_of s

-- The transaction of `updateOrderStatus`.
unfoldable pub set_order_status : ℕ → ℕ → Order → Status → Tx (Unit {0})
unfolding mark_timeline_step release_coupon record_for_delivered order_status_text
set_order_status now period before s = do
  n ← update_orders (is_as_read before) (step_to now before.timeline s (manual_text s))
  won n (bad_request "订单状态已变化，请刷新重试")
  when (is_status s Status.cancelled) (release_coupon before.coupon_id)
  when (is_receipt s) (discard (record_for_delivered period (record before { status = s })))

-- `updateOrderStatus` behind the read of the order; `has_reason` is whether a reason is given.
unfoldable pub update_read : ℕ → ℕ → Status → Bool → Order → Tx (Unit {0})
unfolding set_order_status
update_read now period s has_reason before = do
  require (includes order_statuses s) (bad_request "未知订单状态")
  require (not (includes frozen_statuses before.status)) (bad_request "订单当前状态不可修改")
  require (not (is_receipt s) || has_reason) (bad_request "补录已送达/已完成必须填写变更原因")
  when (not (is_status before.status s)) (set_order_status now period before s)

-- `updateOrderStatus`
unfoldable pub update_order_status : ℕ → ℕ → ℕ → Status → Bool → Option ℕ → Tx (Unit {0})
unfolding read_order update_read
update_order_status now period id s has_reason scope =
    read_order id scope >>= update_read now period s has_reason
