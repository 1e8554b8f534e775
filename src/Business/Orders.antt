-- ===== src/Business/Orders.antt =====
-- src/business/business.service.ts: what else a customer does with an order: `confirmReceipt`, `cancel`.
pub mod Laws
use Prim.Native.String.{String}
use buchuqin_api.Prelude.{
  ℕ, Bool, true, false, List, [], ◌∷◌, Option, none, some, ◌==◌, ◌&&◌, ◌||◌, not, if◌then◌else◌,
}
use buchuqin_api.Common.Status
use buchuqin_api.Common.Status.{Status, is_status, includes}
use buchuqin_api.Common.Timeline.{mark_timeline_step}
use buchuqin_api.Store.{
  Db, Tx, ◌>>=◌, ◌>>◌, pure, read, require, expect, won, discard, bad_request, not_found,
  update_orders, update_user_coupons,
}
use buchuqin_api.Store.Table.{find_first}
use buchuqin_api.Store.Rows.{Clock, Order, UserCoupon, UserCouponStatus}
use buchuqin_api.Business.Closing.{is_coupon, set_coupon, is_pending, close_order}

abbrev pub is_order_of : ℕ → ℕ → Order → Bool
is_order_of user_id id o = (o.id == id) && (o.user_id == user_id)

abbrev pub is_delivered : ℕ → Order → Bool
is_delivered id o = (o.id == id) && is_status o.status Status.delivered

abbrev pub complete_order : ℕ → Order → Order → Order
complete_order now raw o = record o {
  status = Status.completed;
  status_text = "已确认收货";
  timeline = mark_timeline_step now raw.timeline Status.completed;
}

-- `confirmReceipt` behind the read of the order.
unfoldable pub confirm_read : ℕ → Order → Tx (Unit {0})
unfolding mark_timeline_step
confirm_read now raw = do
  require (includes (Status.delivered ∷ Status.completed ∷ []) raw.status)
      (bad_request "当前状态不可确认收货")
  if is_status raw.status Status.completed
      then pure tt
      else (update_orders (is_delivered raw.id) (complete_order now raw) >>= λ n.
          won n (bad_request "订单状态已变化"))

-- `confirmReceipt`
unfoldable pub confirm_receipt : ℕ → ℕ → ℕ → Tx (Unit {0})
unfolding confirm_read
confirm_receipt now user_id id = do
  found ← read (λ db. find_first (is_order_of user_id id) db.orders)
  raw ← expect found (not_found "订单不存在")
  confirm_read now raw

abbrev is_held_coupon : ℕ → UserCoupon → Bool
is_held_coupon id c =
    (c.id == id)
    && (is_coupon c.status UserCouponStatus.locked || is_coupon c.status UserCouponStatus.used)

unfoldable pub release_coupon : Option ℕ → Tx (Unit {0})
release_coupon none = pure tt
release_coupon (some id) =
    discard (update_user_coupons (is_held_coupon id) (set_coupon UserCouponStatus.released))

-- `cancel` behind the read of the order.
unfoldable pub cancel_read : Order → Tx (Unit {0})
unfolding release_coupon
cancel_read raw = do
  require (not (is_status raw.status Status.paid)) (bad_request "订单已支付，如需取消请联系客服处理")
  require (is_status raw.status Status.pending_payment) (bad_request "当前状态不可取消")
  n ← update_orders (is_pending raw.id) (close_order "订单已取消")
  won n (bad_request "订单状态已变化")
  release_coupon raw.coupon_id

-- `cancel`
unfoldable pub cancel : ℕ → ℕ → Tx (Unit {0})
unfolding cancel_read
cancel user_id id = do
  found ← read (λ db. find_first (is_order_of user_id id) db.orders)
  raw ← expect found (not_found "订单不存在")
  cancel_read raw
