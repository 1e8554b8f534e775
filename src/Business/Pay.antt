-- ===== src/Business/Pay.antt =====
-- src/business/business.service.ts: `pay`.
-- The push and the receipt that follow the payment change nothing in the database.
pub mod Stock
pub mod Outcome
pub mod Success
use Prim.Native.String.{String}
use buchuqin_api.Prelude.{
  ℕ, zero, suc, ◌+◌, ◌-◌, ◌*◌, Bool, true, false, List, [], ◌∷◌, ◌++◌, Option, none, some, ◌==◌,
  ◌||◌, ◌&&◌, not, leb, ltb, if◌then◌else◌, is_some, map, keep,
}
use buchuqin_api.Common.Status
use buchuqin_api.Common.Status.{Status, is_status}
use buchuqin_api.Common.Timeline.{TimelineStep}
use buchuqin_api.Store.{
  Db, Tx, ◌>>=◌, ◌>>◌, pure, read, write, require, expect, when, won, discard, throw, Failure,
  bad_request, not_found, update_orders, update_user_coupons, ok, thrown,
}
use buchuqin_api.Store.Table.{find_first, count_where, update_many, delete_many}
use buchuqin_api.Store.Rows.{
  Clock, Product, Order, OrderLine, Package, DeliveryMode, instant, scheduled, CartItem, Coupon,
  UserCoupon, UserCouponStatus, Notification, PurchaseLimit,
}
use buchuqin_api.Business.Limits.{assert_purchase_limit, contains, is_limited}
use buchuqin_api.Business.Cost.{snapshot_lines}
use buchuqin_api.Business.Closing.{
  close_order, close_stale_order, close_stale_pending_orders, coupon_status_code,
  expire_all_pending_orders, expire_pending_orders, is_coupon, is_pending, is_stale, is_user_coupon,
  move_coupon, payment_timeout_ms, set_coupon,
}

-- `timeline[0] = { ...timeline[0], done: true, time: paidAt }`; an order has a first step.
pub pay_step : ℕ → List TimelineStep → List TimelineStep
pay_step now [] = []
pay_step now (s ∷ ss) = record s { done = true; time = some now } ∷ ss

abbrev new_package : Package
new_package = record {
  status = some "waiting-pick";
  last_mile_mode = none;
  proof = none;
  handover_images = none;
}

abbrev pub product_ids : List OrderLine → List ℕ
product_ids = map (λ l. l.product_id)

-- `hasLimited`, the lock on the user's row, and the check behind it.
unfoldable pub recheck_limits : Clock → ℕ → List OrderLine → Tx (Unit {0})
unfolding assert_purchase_limit
recheck_limits clock user_id items = do
  limited ← read λ db.
      count_where
        (λ (p : Product). contains (product_ids items) p.id && is_limited p.purchase_limit)
        db.products
  when (not (limited == 0)) (assert_purchase_limit clock user_id (product_ids items))

abbrev pub pay_order : Clock → Order → List OrderLine → Order → Order
pay_order clock raw items o = record o {
  status = Status.paid;
  status_text = "仓库正在接单";
  paid_at = some clock.now;
  items = items;
  timeline = pay_step clock.now raw.timeline;
  parcel = new_package;
}

-- The products that an `UPDATE … WHERE id = … AND stock - "lockedStock" >= quantity` changes.
abbrev pub can_sell : OrderLine → Product → Bool
can_sell l p = (p.id == l.product_id) && leb (l.quantity + p.locked_stock) p.stock

abbrev pub sell : OrderLine → Product → Product
sell l p = record p { stock = p.stock - l.quantity; sales = p.sales + l.quantity }

unfoldable pub sell_line : OrderLine → Tx (Unit {0})
sell_line l = do
  sold ← λ db.
      ok (count_where (can_sell l) db.products)
        (record db { products = update_many (can_sell l) (sell l) db.products })
  won sold (bad_request "库存不足")

unfoldable pub sell_lines : List OrderLine → Tx (Unit {0})
unfolding sell_line
sell_lines [] = pure tt
sell_lines (l ∷ ls) = sell_line l >> sell_lines ls

unfoldable pub count_use : Option UserCoupon → Db → Db
count_use none db = db
count_use (some held) db = record db {
  coupons =
      update_many (λ (c : Coupon). c.id == held.coupon_id) (λ c. record c { used = c.used + 1 })
        db.coupons;
}

-- `locked -> used`, and the number of uses of the coupon.
abbrev pub has_coupon_id : ℕ → UserCoupon → Bool
has_coupon_id id c = c.id == id

unfoldable pub use_coupon : Option ℕ → Tx (Unit {0})
unfolding count_use move_coupon
use_coupon none = pure tt
use_coupon (some id) = do
  used ← move_coupon UserCouponStatus.locked UserCouponStatus.used (some id)
  when (not (used == 0)) (write λ db. count_use (find_first (has_coupon_id id) db.user_coupons) db)

-- The number of a coupon is below its total; a total of `none` is no bound.
abbrev pub has_quota : Coupon → Bool
has_quota c = elim c.total [ none ↦ true | some total ↦ ltb c.claimed total ]

abbrev pub is_unexpired : Clock → Option ℕ → Bool
is_unexpired clock none = true
is_unexpired clock (some t) = ltb clock.now t

abbrev pub take_quota : Coupon → Coupon
take_quota c = record c { claimed = c.claimed + 1; issued = c.issued + 1 }

-- `userCoupon.create`
unfoldable pub create_user_coupon : ℕ → ℕ → Tx ℕ
create_user_coupon user_id coupon_id db = ok db.next_id (record db {
  user_coupons =
      db.user_coupons
      ++ (record {
        id = db.next_id;
        user_id = user_id;
        coupon_id = coupon_id;
        status = UserCouponStatus.claimed;
      }
          ∷ []);
  next_id = db.next_id + 1;
})

unfoldable pub notify : ℕ → String → Tx (Unit {0})
notify user_id title = write λ db. record db {
  notifications = db.notifications ++ (record { user_id = user_id; title = title } ∷ []);
}

abbrev pub is_coupon_id : ℕ → Coupon → Bool
is_coupon_id id c = c.id == id

-- The conditional update that takes one of the coupons that are left.
unfoldable pub claim_quota : ℕ → Tx ℕ
claim_quota id db =
    ok (count_where (λ (c : Coupon). is_coupon_id id c && has_quota c) db.coupons) (record db {
      coupons =
          update_many (λ (c : Coupon). is_coupon_id id c && has_quota c) take_quota db.coupons;
    })

unfoldable pub bonus_grant : ℕ → ℕ → Tx (Unit {0})
unfolding claim_quota create_user_coupon notify
bonus_grant user_id coupon_id = do
  taken ← claim_quota coupon_id
  when (not (taken == 0)) (discard (create_user_coupon user_id coupon_id) >> notify user_id "赠券到账")

unfoldable pub bonus_of : Clock → ℕ → Option Coupon → Tx (Unit {0})
unfolding bonus_grant
bonus_of clock user_id none = pure tt
bonus_of clock user_id (some c) = when (is_unexpired clock c.expires_at) (bonus_grant user_id c.id)

-- The coupon for a scheduled delivery; `bonus` is SCHEDULED_BONUS_COUPON_ID of the environment.
unfoldable pub grant_bonus : Clock → Option ℕ → ℕ → DeliveryMode → Tx (Unit {0})
unfolding bonus_of
grant_bonus clock (some bonus) user_id scheduled = do
  found ← read (λ db. find_first (is_coupon_id bonus) db.coupons)
  bonus_of clock user_id found
grant_bonus clock _ user_id _ = pure tt

abbrev pub clear_cart : ℕ → Db → Db
clear_cart user_id db = record db {
  cart_items = delete_many (λ (i : CartItem). i.user_id == user_id) db.cart_items;
}

-- `pay` from the deletion of the cart on.
unfoldable pub finish_payment : Clock → Option ℕ → ℕ → Order → Tx (Unit {0})
unfolding grant_bonus notify
finish_payment clock bonus user_id raw = do
  write (clear_cart user_id)
  grant_bonus clock bonus user_id raw.delivery_mode
  notify user_id "支付成功"

-- `pay` from the conditional update on; `raw` is the order as it was read.
unfoldable pub settle_payment : Clock → Option ℕ → ℕ → Order → List OrderLine → Tx (Unit {0})
unfolding sell_lines use_coupon finish_payment pay_step
settle_payment clock bonus user_id raw items = do
  paid ← update_orders (is_pending raw.id) (pay_order clock raw items)
  won paid (bad_request "订单状态已变化")
  sell_lines items
  use_coupon raw.coupon_id
  finish_payment clock bonus user_id raw

-- The branch of an order whose time is over: it closes the order and throws.
unfoldable pub pay_expired : Order → Tx (Unit {0})
unfolding move_coupon
pay_expired raw = do
  discard (update_orders (is_pending raw.id) (close_order "支付超时已关闭"))
  discard (move_coupon UserCouponStatus.locked UserCouponStatus.released raw.coupon_id)
  throw (bad_request "订单支付已超时")

unfoldable pub pay_pending : Clock → Option ℕ → ℕ → Order → Tx (Unit {0})
unfolding settle_payment recheck_limits snapshot_lines
pay_pending clock bonus user_id raw = do
  require (is_status raw.status Status.pending_payment) (bad_request "当前状态不可支付")
  items ← snapshot_lines raw.items
  recheck_limits clock user_id items
  settle_payment clock bonus user_id raw items

-- The transaction of `pay` from the point where the order has been read as `raw`.
unfoldable pub pay_read : Clock → Option ℕ → ℕ → Order → Tx (Unit {0})
unfolding pay_expired pay_pending
pay_read clock bonus user_id raw =
    if is_status raw.status Status.paid
    then pure tt
    else if leb (raw.created_at + payment_timeout_ms) clock.now
    then pay_expired raw
    else pay_pending clock bonus user_id raw

-- `pay`
unfoldable pub pay : Clock → Option ℕ → ℕ → ℕ → Tx (Unit {0})
unfolding pay_read
pay clock bonus user_id id = do
  found ← read (λ db. find_first (λ (o : Order). (o.id == id) && (o.user_id == user_id)) db.orders)
  raw ← expect found (not_found "订单不存在")
  pay_read clock bonus user_id raw
