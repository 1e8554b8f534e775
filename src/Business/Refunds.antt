-- ===== src/Business/Refunds.antt =====
-- src/business/business.service.ts: a customer's refunds, from the application to its withdrawal
-- (`createAfterSales`, `parseRefundItems`, `createRefund`, `applyPreDeliveryRefund`,
-- `cancelAfterSale`, `restoreOrderFromRefund`).
-- Amounts are whole cents, on which `Math.round` is the identity. The columns of text and photos that
-- a refund keeps for its reader are left out, and so are the old after-sale records, which are only read.
pub mod Laws
use Prim.Native.String.{String}
use buchuqin_api.Prelude.{
  ℕ, zero, suc, ◌+◌, ◌-◌, ◌*◌, Bool, true, false, List, [], ◌∷◌, ◌++◌, Option, none, some, ◌==◌,
  ◌||◌, ◌&&◌, not, leb, if◌then◌else◌,
}
use buchuqin_api.Common.Status
use buchuqin_api.Common.Status.{Status, is_status, includes}
use buchuqin_api.Common.Timeline.{last_time}
use buchuqin_api.Common.RefundAmount.{RefundSource, pre_delivery, after_sale}
use buchuqin_api.Store.{
  Db, Tx, ◌>>=◌, ◌>>◌, pure, read, write, require, expect, when, won, ok, throw, bad_request,
  not_found, update_orders,
}
use buchuqin_api.Store.Table.{find_first, sum_where, update_many}
use buchuqin_api.Store.Rows.{Order, OrderLine, Package, Proof, Refund, RefundItem, RefundStatus}

abbrev pub refund_status_code : RefundStatus → ℕ
refund_status_code RefundStatus.pending = 0
refund_status_code RefundStatus.approved = 1
refund_status_code RefundStatus.refunding = 2
refund_status_code RefundStatus.refunded = 3
refund_status_code RefundStatus.rejected = 4
refund_status_code RefundStatus.failed = 5
refund_status_code RefundStatus.cancelled = 6

-- `status: { in: ['pending', 'approved', 'refunding', 'refunded'] }`
abbrev pub is_reserving : RefundStatus → Bool
is_reserving s = leb (refund_status_code s) 3

abbrev pub is_reserved : ℕ → Refund → Bool
is_reserved order_id r = (r.order_id == order_id) && is_reserving r.status

abbrev pub refund_amount : Refund → ℕ
refund_amount r = r.amount

-- `refundAmountFor`: `max 0 (min (payable - fee) payable)`, for a fee that is not negative.
unfoldable pub refund_amount_for : Order → ℕ
refund_amount_for o = o.payable_amount - o.delivery_fee

abbrev pub items_amount : List RefundItem → ℕ
items_amount [] = 0
items_amount (i ∷ is) = i.amount + items_amount is

unfoldable pub requested_amount : Order → List RefundItem → ℕ
unfolding refund_amount_for
requested_amount o [] = refund_amount_for o
requested_amount o (i ∷ is) = items_amount (i ∷ is)

abbrev pub is_item_of : ℕ → RefundItem → Bool
is_item_of product_id i = i.product_id == product_id

abbrev pub refund_item : OrderLine → RefundItem
refund_item l = record {
  product_id = l.product_id;
  unit_price = l.price;
  quantity = l.quantity;
  amount = l.price * l.quantity;
}

abbrev pub is_line_of : ℕ → OrderLine → Bool
is_line_of product_id l = l.product_id == product_id

abbrev has_item : ℕ → List RefundItem → Bool
has_item product_id [] = false
has_item product_id (i ∷ is) = is_item_of product_id i || has_item product_id is

-- `parseRefundItems`; `picked` is what the loop has picked so far.
unfoldable pub parse_refund_items : List OrderLine → List ℕ → List RefundItem → Tx (List RefundItem)
parse_refund_items ls [] picked = pure picked
parse_refund_items ls (id ∷ ids) picked = do
  l ← expect (find_first (is_line_of id) ls) (bad_request "退款商品与订单不符")
  require (not (has_item id picked)) (bad_request "退款商品重复")
  parse_refund_items ls ids (picked ++ (refund_item l ∷ []))

-- The order as it was read, and still in the state in which it was read.
abbrev pub is_as_read : Order → Order → Bool
is_as_read o x = (x.id == o.id) && is_status x.status o.status

abbrev pub hold_order : String → Order → Order
hold_order text x = record x { status = Status.after_sales; status_text = text }

abbrev pub new_refund : Order → RefundSource → List RefundItem → ℕ → Refund
new_refund o source items id = record {
  id = id;
  user_id = o.user_id;
  order_id = o.id;
  source = source;
  amount = requested_amount o items;
  before_status = o.status;
  status = RefundStatus.pending;
  fee_included = false;
  items = items;
}

-- `refund.create`
abbrev pub add_refund : Order → RefundSource → List RefundItem → Tx ℕ
add_refund o source items db = ok db.next_id (record db {
  refunds = db.refunds ++ (new_refund o source items db.next_id ∷ []);
  next_id = db.next_id + 1;
})

-- `amount > available`, with what is reserved taken to the other side.
abbrev pub is_available : Order → List RefundItem → ℕ → Bool
is_available o items reserved = leb (requested_amount o items + reserved) (refund_amount_for o)

-- The transaction of `createRefund`, which gives the new refund's identifier; `o` is the order as it
-- was read before.
unfoldable pub reserve_refund : Order → RefundSource → String → List RefundItem → Tx ℕ
unfolding requested_amount
reserve_refund o source text items = do
  locked ← update_orders (is_as_read o) (hold_order text)
  won locked (bad_request "该订单已有退款申请或状态已变化")
  reserved ← read (λ db. sum_where (is_reserved o.id) refund_amount db.refunds)
  require (is_available o items reserved) (bad_request "超出可退上限")
  add_refund o source items

-- `createRefund`
unfoldable pub create_refund : Order → RefundSource → String → List RefundItem → Tx ℕ
unfolding reserve_refund
create_refund o source text items = do
  require (leb 1 (requested_amount o items)) (bad_request "可退金额不足 0.01 元，无法提交退款")
  reserve_refund o source text items

abbrev or_else : Option ℕ → Option ℕ → Option ℕ
or_else none b = b
or_else (some a) b = some a

abbrev proof_time : Option Proof → Option ℕ
proof_time none = none
proof_time (some p) = some p.time

-- `deliveredAt`
unfoldable pub delivered_at : Order → Option ℕ
delivered_at o = or_else (proof_time o.parcel.proof) (or_else (last_time o.timeline) o.paid_at)

abbrev pub after_sales_ms : ℕ
after_sales_ms = 24 * 60 * 60 * 1000

-- Whether the 24 hours are not over.
unfoldable pub is_in_time : ℕ → Option ℕ → Bool
is_in_time now none = false
is_in_time now (some t) = leb now (t + after_sales_ms)

abbrev is_order_of : ℕ → ℕ → Order → Bool
is_order_of user_id id o = (o.id == id) && (o.user_id == user_id)

-- `createAfterSales`
unfoldable pub create_after_sales : ℕ → ℕ → ℕ → List ℕ → Tx ℕ
unfolding create_refund parse_refund_items is_in_time delivered_at
create_after_sales now user_id id product_ids = do
  found ← read (λ db. find_first (is_order_of user_id id) db.orders)
  o ← expect found (not_found "订单不存在")
  require (includes (Status.delivered ∷ Status.completed ∷ []) o.status) (bad_request "订单送达后才能申请售后")
  require (is_in_time now (delivered_at o)) (bad_request "已超过送达后 24 小时售后期限")
  items ← parse_refund_items o.items product_ids []
  create_refund o after_sale "售后审核中" items

-- `applyPreDeliveryRefund`; `has_reason` is whether the reason has more than blanks.
unfoldable pub apply_pre_delivery_refund : ℕ → ℕ → Bool → Tx ℕ
unfolding create_refund
apply_pre_delivery_refund user_id id has_reason = do
  found ← read (λ db. find_first (is_order_of user_id id) db.orders)
  o ← expect found (not_found "订单不存在")
  require (not (is_status o.status Status.after_sales)) (bad_request "该订单已有退款申请在审核中")
  require (is_status o.status Status.paid) (bad_request "订单已出库，无法申请退款，请联系客服处理")
  require has_reason (bad_request "请填写退款原因")
  create_refund o pre_delivery "退款审核中" []

-- The target of `restoreOrderFromRefund`, and its text.
unfoldable pub restore_target : Status → Status
restore_target before =
    if includes (Status.paid ∷ Status.delivered ∷ Status.completed ∷ []) before
    then before
    else Status.delivered

abbrev restore_text : Status → String
restore_text Status.paid = "仓库正在接单"
restore_text Status.completed = "已确认收货"
restore_text _ = "已送达寝室"

abbrev pub is_held : ℕ → Order → Bool
is_held id o = (o.id == id) && is_status o.status Status.after_sales

abbrev pub restore_order : Status → Order → Order
restore_order before o = record o {
  status = restore_target before;
  status_text = restore_text (restore_target before);
}

-- `restoreOrderFromRefund`
unfoldable pub restore_order_from_refund : ℕ → Status → Tx (Unit {0})
unfolding restore_target
restore_order_from_refund id before =
    write λ db. record db { orders = update_many (is_held id) (restore_order before) db.orders }

abbrev pub has_refund_id : ℕ → Refund → Bool
has_refund_id id r = r.id == id

abbrev pub is_refund_of : ℕ → ℕ → Refund → Bool
is_refund_of user_id id r = has_refund_id id r && (r.user_id == user_id)

abbrev pub withdraw : Refund → Refund
withdraw r = record r { status = RefundStatus.cancelled }

-- The part of `cancelAfterSale` behind the read of the refund.
unfoldable pub cancel_refund : ℕ → Refund → Tx (Unit {0})
unfolding restore_order_from_refund
cancel_refund id r = do
  require (refund_status_code r.status == 0) (bad_request "当前退款申请状态不可撤销")
  write (λ db. record db { refunds = update_many (has_refund_id id) withdraw db.refunds })
  restore_order_from_refund r.order_id r.before_status

-- `cancelAfterSale`
unfoldable pub cancel_after_sale : ℕ → ℕ → Tx (Unit {0})
unfolding cancel_refund
cancel_after_sale user_id id = do
  found ← read (λ db. find_first (is_refund_of user_id id) db.refunds)
  r ← expect found (not_found "售后单不存在")
  cancel_refund id r
