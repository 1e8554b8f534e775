-- ===== src/Business/Checkout.antt =====
-- src/business/business.service.ts: from the cart to an order, `validateQuote`, `deliveryFeeFor`, `checkout`
-- and `createOrder`. The order's number, its slot, its remark and the estimate of its arrival are left out, and
-- so is the hint about managers, which changes no table. The label of a slot that a request names is a number.
pub mod Quote
pub mod Laws
use Prim.Native.String.{String}
use buchuqin_api.Prelude.{
  ℕ, zero, suc, ◌+◌, ◌-◌, ◌*◌, Bool, true, false, List, [], ◌∷◌, ◌++◌, Option, none, some, ◌==◌,
  ◌||◌, ◌&&◌, not, leb, if◌then◌else◌, is_some, map, keep,
}
use buchuqin_api.Common.Status
use buchuqin_api.Common.Status.{Status}
use buchuqin_api.Common.Timeline.{build_order_timeline}
use buchuqin_api.Store.{
  Db, Tx, ok, ◌>>=◌, ◌>>◌, pure, read, write, require, expect, when, won, Failure, bad_request,
  update_user_coupons,
}
use buchuqin_api.Store.Table.{find_first, count_where}
use buchuqin_api.Store.Rows.{
  Clock, Campus, Address, Product, Order, OrderLine, DeliveryMode, DeliverySlot, Coupon, UserCoupon,
  UserCouponStatus, Package,
}
use buchuqin_api.Tenancy.{find_campus}
use buchuqin_api.Business.Limits.{assert_purchase_limit}
use buchuqin_api.Business.Closing.{is_coupon, set_coupon}
use buchuqin_api.Business.Coupons.{validate_user_coupon, is_spendable}
use buchuqin_api.Business.Opening.{throw_if_campus_closed, slot_expired_today}
use buchuqin_api.Business.Prices.{active_seckill}
use buchuqin_api.Business.Cost.{find_product}
use buchuqin_api.Business.Cart.{CartLine, Cart, cart_data}

-- `CreateOrderDto`
pub record CreateOrder : Type 0 where
  pub address_id : ℕ
  pub delivery_mode : DeliveryMode
  pub delivery_slot : Option ℕ
  pub coupon_id : Option ℕ

abbrev pub is_address_of : ℕ → ℕ → Address → Bool
is_address_of user_id id a = (a.id == id) && (a.user_id == user_id)

abbrev pub is_empty_cart : List CartLine → Bool
is_empty_cart [] = true
is_empty_cart (l ∷ ls) = false

abbrev pub fits_stock : ℕ → Option Product → Bool
fits_stock quantity none = false
fits_stock quantity (some p) = leb (quantity + p.locked_stock) p.stock

-- The loop over the lines.
unfoldable pub in_stock : List CartLine → Db → Bool
in_stock [] db = true
in_stock (l ∷ ls) db =
    fits_stock l.line.quantity (find_product l.line.product_id db) && in_stock ls db

-- The products from a seckill that runs, each once.
abbrev pub is_seckill_line : ℕ → Db → CartLine → Bool
is_seckill_line now db l =
    l.as_seckill && is_some (active_seckill now l.line.product_id db.promotions)

unfoldable pub seckill_products : ℕ → Db → List CartLine → ℕ
unfolding active_seckill
seckill_products now db [] = 0
seckill_products now db (l ∷ ls) =
    let rest = seckill_products now db ls in
    let again =
      count_where
        (λ (k : CartLine). is_seckill_line now db k && (k.line.product_id == l.line.product_id))
        ls in
    if is_seckill_line now db l && (again == 0) then suc rest else rest

abbrev pub is_slot : ℕ → ℕ → DeliverySlot → Bool
is_slot campus_id label s =
    (s.campus_id == campus_id) && (s.label == label) && s.available && leb 1 s.capacity

unfoldable pub check_slot : ℕ → ℕ → DeliveryMode → Option ℕ → Tx (Unit {0})
unfolding slot_expired_today
check_slot minute campus_id DeliveryMode.instant slot = pure tt
check_slot minute campus_id DeliveryMode.scheduled slot = do
  label ← expect slot (bad_request "请选择送达时段")
  found ← read (λ db. find_first (is_slot campus_id label) db.delivery_slots)
  s ← expect found (bad_request "请选择可用的送达时段")
  require (not (slot_expired_today minute s.hours)) (bad_request "该时段今日已截止，请选择其他时段")

abbrev pub cart_products : List CartLine → List ℕ
cart_products ls = map (λ (l : CartLine). l.line.product_id) (keep (λ l. leb 1 l.line.quantity) ls)

-- `validateQuote` behind the reads of the cart and of the address.
unfoldable pub check_quote : Clock → ℕ → ℕ → CreateOrder → Cart → Option Address → Tx Address
unfolding in_stock assert_purchase_limit seckill_products check_slot
check_quote clock user_id campus_id dto cart found = do
  require (not (is_empty_cart cart.items)) (bad_request "购物车为空")
  require (leb cart.delivery_threshold cart.product_amount) (bad_request "商品金额满元起送")
  a ← expect found (bad_request "地址不存在或无权使用")
  require (a.campus_id == campus_id) (bad_request "请选择当前校区的收货地址")
  stocked ← read (in_stock cart.items)
  require stocked (bad_request "库存不足")
  assert_purchase_limit clock user_id (cart_products cart.items)
  seckills ← read (λ db. seckill_products clock.now db cart.items)
  require (leb seckills 1) (bad_request "一个订单只能包含一个秒杀商品，请调整购物车后再试")
  check_slot clock.minute a.campus_id dto.delivery_mode dto.delivery_slot
  pure a

-- `validateQuote`
unfoldable pub validate_quote : Clock → ℕ → ℕ → CreateOrder → Tx (Cart × Address)
unfolding throw_if_campus_closed cart_data check_quote
validate_quote clock user_id campus_id dto = do
  throw_if_campus_closed clock campus_id
  cart ← read (cart_data clock.now user_id)
  found ← read (λ db. find_first (is_address_of user_id dto.address_id) db.addresses)
  a ← check_quote clock user_id campus_id dto cart found
  pure (cart, a)

-- `deliveryFeeFor`, with `DELIVERY_FEE_CENTS` where the campus is unknown.
unfoldable pub delivery_fee_for : Option Campus → DeliveryMode → ℕ
delivery_fee_for none DeliveryMode.instant = 400
delivery_fee_for none DeliveryMode.scheduled = 200
delivery_fee_for (some c) DeliveryMode.instant = c.delivery_fee_instant
delivery_fee_for (some c) DeliveryMode.scheduled = c.delivery_fee_scheduled

-- What `checkout` gives.
pub record Settlement : Type 0 where
  pub cart : Cart
  pub delivery_fee : ℕ
  pub discount : ℕ
  pub payable_amount : ℕ

-- The coupon of a request, if it names one.
unfoldable pub coupon_for : Clock → ℕ → ℕ → Option ℕ → Tx (Option Coupon)
unfolding validate_user_coupon
coupon_for clock user_id campus_id none = pure none
coupon_for clock user_id campus_id (some id) = do
  c ← validate_user_coupon clock user_id id campus_id
  pure (some (c.1))

abbrev pub discount_of : Option Coupon → ℕ
discount_of none = 0
discount_of (some c) = c.amount

abbrev pub meets_threshold : ℕ → Option Coupon → Bool
meets_threshold amount none = true
meets_threshold amount (some c) = leb c.threshold amount

-- `checkout` behind the quote. `Math.max(0, …)` is the subtraction of the natural numbers.
unfoldable pub settle : Cart → ℕ → Option Coupon → Tx Settlement
settle cart fee coupon = do
  require (meets_threshold cart.product_amount coupon) (bad_request "商品金额未达到优惠券使用门槛")
  require (leb (discount_of coupon) (cart.product_amount + fee)) (bad_request "该单无法使用此优惠券")
  pure (record {
    cart = cart;
    delivery_fee = fee;
    discount = discount_of coupon;
    payable_amount = cart.product_amount + fee - discount_of coupon;
  })

-- `checkout`
unfoldable pub checkout : Clock → ℕ → ℕ → CreateOrder → Tx Settlement
unfolding validate_quote delivery_fee_for coupon_for settle
checkout clock user_id campus_id dto = do
  quote ← validate_quote clock user_id campus_id dto
  fee ← read (λ db. delivery_fee_for (find_campus campus_id db) dto.delivery_mode)
  coupon ← coupon_for clock user_id campus_id dto.coupon_id
  settle (quote.0) fee coupon

-- `status: { in: ['claimed', 'released'] }`
abbrev pub is_lockable : ℕ → ℕ → UserCoupon → Bool
is_lockable user_id id c = (c.id == id) && (c.user_id == user_id) && is_spendable c.status

-- The coupon is locked for the order.
unfoldable pub lock_coupon : ℕ → Option ℕ → Tx (Unit {0})
lock_coupon user_id none = pure tt
lock_coupon user_id (some id) = do
  n ← update_user_coupons (is_lockable user_id id) (set_coupon UserCouponStatus.locked)
  won n (bad_request "优惠券不可用或已被锁定")

abbrev pub no_package : Package
no_package = record { status = none; last_mile_mode = none; proof = none; handover_images = none }

abbrev pub new_order : ℕ → ℕ → CreateOrder → Address → Settlement → ℕ → Order
new_order now user_id dto a s id = record {
  id = id;
  rider_id = none;
  user_id = user_id;
  campus_id = a.campus_id;
  status = Status.pending_payment;
  status_text = "等待支付";
  created_at = now;
  paid_at = none;
  address = a;
  delivery_mode = dto.delivery_mode;
  coupon_id = dto.coupon_id;
  items = map (λ (l : CartLine). l.line) s.cart.items;
  product_amount = s.cart.product_amount;
  total_quantity = s.cart.total_quantity;
  delivery_threshold = s.cart.delivery_threshold;
  delivery_fee = s.delivery_fee;
  discount = s.discount;
  payable_amount = s.payable_amount;
  timeline = build_order_timeline a.label;
  parcel = no_package;
  stock_restored = false;
}

-- The transaction of `createOrder`, which gives the new order's identifier.
unfoldable pub place_order : ℕ → ℕ → CreateOrder → Address → Settlement → Tx ℕ
unfolding lock_coupon build_order_timeline
place_order now user_id dto a s = do
  lock_coupon user_id dto.coupon_id
  λ db. ok db.next_id (record db {
    orders = db.orders ++ (new_order now user_id dto a s db.next_id ∷ []);
    next_id = db.next_id + 1;
  })

-- `createOrder`
unfoldable pub create_order : Clock → ℕ → ℕ → CreateOrder → Tx ℕ
unfolding validate_quote checkout place_order
create_order clock user_id campus_id dto = do
  quote ← validate_quote clock user_id campus_id dto
  s ← checkout clock user_id campus_id dto
  place_order clock.now user_id dto (quote.1) s
