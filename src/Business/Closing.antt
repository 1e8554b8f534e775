-- ===== src/Business/Closing.antt =====
-- src/business/business.service.ts: the closing of orders that were not paid in time, and the states of a
-- user's coupon (`closeStalePendingOrders`, `expirePendingOrders`, `expireAllPendingOrders`).
use Prim.Native.String.{String}
use buchuqin_api.Prelude.{
  ℕ, ◌+◌, ◌*◌, Bool, List, [], ◌∷◌, Option, none, some, ◌==◌, ◌&&◌, not, ltb, keep,
}
use buchuqin_api.Common.Status.{Status, is_status}
use buchuqin_api.Store.{
  Tx, ◌>>=◌, ◌>>◌, pure, read, when, discard, update_orders, update_user_coupons,
}
use buchuqin_api.Store.Rows.{Clock, Order, UserCoupon, UserCouponStatus}

-- `PAYMENT_TIMEOUT_MS`
abbrev pub payment_timeout_ms : ℕ
payment_timeout_ms = 15 * 60 * 1000

abbrev pub coupon_status_code : UserCouponStatus → ℕ
coupon_status_code UserCouponStatus.claimed = 0
coupon_status_code UserCouponStatus.locked = 1
coupon_status_code UserCouponStatus.used = 2
coupon_status_code UserCouponStatus.released = 3

abbrev pub is_coupon : UserCouponStatus → UserCouponStatus → Bool
is_coupon s t = coupon_status_code s == coupon_status_code t

-- `updateMany` of a coupon of a user from one status to another.
abbrev pub is_user_coupon : ℕ → UserCouponStatus → UserCoupon → Bool
is_user_coupon id s c = (c.id == id) && is_coupon c.status s

abbrev pub set_coupon : UserCouponStatus → UserCoupon → UserCoupon
set_coupon s c = record c { status = s }

unfoldable pub move_coupon : UserCouponStatus → UserCouponStatus → Option ℕ → Tx ℕ
move_coupon s t none = pure 0
move_coupon s t (some id) = update_user_coupons (is_user_coupon id s) (set_coupon t)

abbrev pub is_pending : ℕ → Order → Bool
is_pending id o = (o.id == id) && is_status o.status Status.pending_payment

abbrev pub close_order : String → Order → Order
close_order text o = record o { status = Status.cancelled; status_text = text }

-- One round of `closeStalePendingOrders`: the coupon is released only if this round closed the order.
unfoldable pub close_stale_order : Order → Tx (Unit {0})
unfolding move_coupon
close_stale_order o = do
  closed ← update_orders (is_pending o.id) (close_order "支付超时已关闭")
  when (not (closed == 0))
      (discard (move_coupon UserCouponStatus.locked UserCouponStatus.released o.coupon_id))

-- `closeStalePendingOrders`
unfoldable pub close_stale_pending_orders : List Order → Tx (Unit {0})
unfolding close_stale_order
close_stale_pending_orders [] = pure tt
close_stale_pending_orders (o ∷ os) = close_stale_order o >> close_stale_pending_orders os

-- `createdAt < now - timeout`
abbrev pub is_stale : Clock → Order → Bool
is_stale clock o =
    is_status o.status Status.pending_payment && ltb (o.created_at + payment_timeout_ms) clock.now

-- `expireAllPendingOrders`, without the count that it returns; `expirePendingOrders` for one user.
unfoldable pub expire_all_pending_orders : Clock → Tx (Unit {0})
unfolding close_stale_pending_orders
expire_all_pending_orders clock = do
  stale ← read (λ db. keep (is_stale clock) db.orders)
  close_stale_pending_orders stale

unfoldable pub expire_pending_orders : Clock → ℕ → Tx (Unit {0})
unfolding close_stale_pending_orders
expire_pending_orders clock user_id = do
  stale ← read (λ db. keep (λ (o : Order). (o.user_id == user_id) && is_stale clock o) db.orders)
  close_stale_pending_orders stale
