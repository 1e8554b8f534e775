-- ===== src/Business/Checkout/Quote.antt =====
-- src/business/business.service.ts: `validateQuote` and `checkout` only read, and what they give adds up.
use buchuqin_api.Prelude.{
  Bool-cases, inl, inr, ℕ, ◌+◌, ◌-◌, ◌≡◌, refl, true, List, Option, none, some, ◌==◌, not, leb,
  arith, leb→le,
}
use buchuqin_api.Store.{Db, Tx, Failure, bad_request, ◌>>=◌, ◌>>◌, read, require, expect, pure}
use buchuqin_api.Store.Yields.{
  Yields, IsReading, Yields-require, Yields-expect, Yields-bind, Yields-after, require-IsReading,
}
use buchuqin_api.Store.Table.{find_first}
use buchuqin_api.Store.Rows.{Clock, Campus, Address, Coupon, UserCoupon, DeliveryMode}
use buchuqin_api.Tenancy.{find_campus}
use buchuqin_api.Business.Limits.{assert_purchase_limit, within_limits}
use buchuqin_api.Business.Pay.{is_unexpired, is_coupon_id, has_coupon_id}
use buchuqin_api.Business.Coupons.{validate_user_coupon, is_spendable, is_partner}
use buchuqin_api.Business.Opening.{
  throw_if_campus_closed, throw_if_closed, is_closed_now, slot_expired_today,
}
use buchuqin_api.Business.Cart.{Cart, cart_data}
use buchuqin_api.Business.Checkout.{
  CreateOrder, is_address_of, is_empty_cart, in_stock, seckill_products, is_slot, check_slot,
  cart_products, check_quote, validate_quote, delivery_fee_for, Settlement, coupon_for, discount_of,
  meets_threshold, settle, checkout,
}

throw_if_closed-IsReading :
    (clock : Clock) (c : Option Campus) (db : Db) → IsReading db (throw_if_closed clock c db)
unfolding throw_if_closed
throw_if_closed-IsReading clock none db = refl
throw_if_closed-IsReading clock (some c) db = elim (Bool-cases (is_closed_now clock c)) [
  | inl e ↦ rw e tt
  | inr e ↦ rw e refl
]

pub throw_if_campus_closed-IsReading :
    (clock : Clock) (id : ℕ) (db : Db) → IsReading db (throw_if_campus_closed clock id db)
unfolding throw_if_campus_closed
throw_if_campus_closed-IsReading clock id db =
    throw_if_closed-IsReading clock (find_campus id db) db

pub assert_purchase_limit-IsReading :
    (clock : Clock) (u : ℕ) (ids : List ℕ) (db : Db)
    → IsReading db (assert_purchase_limit clock u ids db)
unfolding assert_purchase_limit
assert_purchase_limit-IsReading clock u ids db =
    require-IsReading (within_limits clock u ids db.orders db.products) (bad_request "已达限购") db

check_slot-IsReading :
    (minute campus : ℕ) (mode : DeliveryMode) (slot : Option ℕ) (db : Db)
    → IsReading db (check_slot minute campus mode slot db)
unfolding check_slot
check_slot-IsReading minute campus DeliveryMode.instant slot db = refl
check_slot-IsReading minute campus DeliveryMode.scheduled none db = tt
check_slot-IsReading minute campus DeliveryMode.scheduled (some label) db =
    let Q = λ (x : Unit {0}) (d : Db). d ≡ db in
    let late : Failure = bad_request "该时段今日已截止，请选择其他时段" in
    Yields-expect Q (find_first (is_slot campus label) db.delivery_slots) (bad_request "请选择可用的送达时段")
      (λ s. require (not (slot_expired_today minute s.hours)) late) db
      λ s _. require-IsReading (not (slot_expired_today minute s.hours)) late db

module _ (clock : Clock) (user_id campus_id : ℕ) (dto : CreateOrder) (db : Db) where
  -- The quote passed: nothing was written, and the amount reaches the threshold.
  abbrev Passed : Cart → Address → Db → Type 0
  Passed cart a d = (d ≡ db) × (leb cart.delivery_threshold cart.product_amount ≡ true)

  check_quote-Passed :
      (cart : Cart) (found : Option Address)
      → Yields (Passed cart) (check_quote clock user_id campus_id dto cart found db)
  unfolding check_quote
  check_quote-Passed cart found =
      let enough = leb cart.delivery_threshold cart.product_amount in
      let few : Failure = bad_request "商品金额满元起送" in
      let nowhere : Failure = bad_request "地址不存在或无权使用" in
      let elsewhere : Failure = bad_request "请选择当前校区的收货地址" in
      let short : Failure = bad_request "库存不足" in
      let many : Failure = bad_request "一个订单只能包含一个秒杀商品，请调整购物车后再试" in
      let last = λ (a : Address).
        check_slot clock.minute a.campus_id dto.delivery_mode dto.delivery_slot >> pure a in
      let seckill = λ (a : Address). read (λ d. seckill_products clock.now d cart.items) >>= λ n.
      require (leb n 1) many >> last a in
      let limits = λ (a : Address).
        assert_purchase_limit clock user_id (cart_products cart.items) >> seckill a in
      let stock =
        λ (a : Address). read (in_stock cart.items) >>= λ b. require b short >> limits a in
      let place = λ (a : Address). require (a.campus_id == campus_id) elsewhere >> stock a in
      Yields-require (Passed cart) (not (is_empty_cart cart.items)) (bad_request "购物车为空")
        (require enough few >> (expect found nowhere >>= place)) db
        λ _. Yields-require (Passed cart) enough few (expect found nowhere >>= place) db λ reached.
          Yields-expect (Passed cart) found nowhere place db λ a _.
            Yields-require (Passed cart) (a.campus_id == campus_id) elsewhere (stock a) db λ _.
              Yields-require (Passed cart) (in_stock cart.items db) short (limits a) db λ _.
                Yields-after (Passed cart)
                  (assert_purchase_limit clock user_id (cart_products cart.items)) (λ _. seckill a)
                  db (assert_purchase_limit-IsReading clock user_id (cart_products cart.items) db)
                  λ _.
                    Yields-require (Passed cart) (leb (seckill_products clock.now db cart.items) 1)
                      many (last a) db
                      λ _.
                        Yields-after (Passed cart)
                          (check_slot clock.minute a.campus_id dto.delivery_mode dto.delivery_slot)
                          (λ _. pure a) db
                          (check_slot-IsReading clock.minute a.campus_id dto.delivery_mode
                            dto.delivery_slot db)
                          λ _. (refl, reached)

  -- The quote of a request: the cart as it is, and enough of it.
  abbrev pub Quoted : Cart × Address → Db → Type 0
  Quoted q d =
      (d ≡ db)
      × (q.0 ≡ cart_data clock.now user_id db)
      × (leb (q.0).delivery_threshold (q.0).product_amount ≡ true)

  pub validate_quote-Quoted : Yields Quoted (validate_quote clock user_id campus_id dto db)
  unfolding validate_quote
  validate_quote-Quoted =
      let cart = cart_data clock.now user_id db in
      let found = find_first (is_address_of user_id dto.address_id) db.addresses in
      let address = λ (c : Cart).
        read (λ d. find_first (is_address_of user_id dto.address_id) d.addresses) >>= λ f.
        check_quote clock user_id campus_id dto c f >>= λ a. pure (c, a) in
      Yields-after Quoted (throw_if_campus_closed clock campus_id)
        (λ _. read (cart_data clock.now user_id) >>= address) db
        (throw_if_campus_closed-IsReading clock campus_id db)
        λ _.
          Yields-bind (Passed cart) Quoted (check_quote clock user_id campus_id dto cart found)
            (λ a. pure (cart, a)) db (check_quote-Passed cart found)
            λ a d (e, reached). (e, refl, reached)

  validate_user_coupon-IsReading :
      (id : ℕ) → IsReading db (validate_user_coupon clock user_id id campus_id db)
  unfolding validate_user_coupon
  validate_user_coupon-IsReading id =
      let Q = λ (x : UserCoupon × Coupon) (d : Db). d ≡ db in
      let none_ : Failure = bad_request "优惠券不存在或无权使用" in
      let off_campus : Failure = bad_request "该优惠券不属于当前校园" in
      let unusable : Failure = bad_request "优惠券当前状态不可使用" in
      let partner : Failure = bad_request "异业券请在到店时出示，不参与下单抵扣" in
      let over : Failure = bad_request "优惠券已过期" in
      let third = λ (h : UserCoupon) (c : Coupon).
        require (not (is_partner c.kind)) partner
        >> (require (is_unexpired clock c.expires_at) over >> pure (h, c)) in
      let second = λ (h : UserCoupon) (c : Coupon).
        require (c.campus_id == campus_id) off_campus
        >> (require (is_spendable h.status) unusable >> third h c) in
      let first = λ (h : UserCoupon).
        require (h.user_id == user_id) none_
        >> (read (λ d. find_first (is_coupon_id h.coupon_id) d.coupons) >>= λ k.
            expect k none_ >>= second h) in
      Yields-expect Q (find_first (has_coupon_id id) db.user_coupons) none_ first db λ h _.
        Yields-require Q (h.user_id == user_id) none_
          (read (λ d. find_first (is_coupon_id h.coupon_id) d.coupons) >>= λ k.
            expect k none_ >>= second h)
          db
          λ _.
            Yields-expect Q (find_first (is_coupon_id h.coupon_id) db.coupons) none_ (second h) db
              λ c _.
                Yields-require Q (c.campus_id == campus_id) off_campus
                  (require (is_spendable h.status) unusable >> third h c) db
                  λ _. Yields-require Q (is_spendable h.status) unusable (third h c) db λ _.
                    Yields-require Q (not (is_partner c.kind)) partner
                      (require (is_unexpired clock c.expires_at) over >> pure (h, c)) db
                      λ _.
                        Yields-require Q (is_unexpired clock c.expires_at) over (pure (h, c)) db
                          λ _. refl

  coupon_for-IsReading : (id : Option ℕ) → IsReading db (coupon_for clock user_id campus_id id db)
  unfolding coupon_for
  coupon_for-IsReading none = refl
  coupon_for-IsReading (some id) =
      Yields-after (λ (x : Option Coupon) (d : Db). d ≡ db)
        (validate_user_coupon clock user_id id campus_id) (λ c. pure (some (c.1))) db
        (validate_user_coupon-IsReading id) λ c. refl

  -- What `checkout` gives: the cart as it is, and amounts that add up.
  abbrev pub Settled : Settlement → Db → Type 0
  Settled s d =
      (d ≡ db)
      × (s.cart ≡ cart_data clock.now user_id db)
      × (leb s.cart.delivery_threshold s.cart.product_amount ≡ true)
      × (s.payable_amount + s.discount ≡ s.cart.product_amount + s.delivery_fee)

  settle-Settled :
      (cart : Cart) (fee : ℕ) (coupon : Option Coupon)
      → cart ≡ cart_data clock.now user_id db
      → leb cart.delivery_threshold cart.product_amount ≡ true
      → Yields Settled (settle cart fee coupon db)
  unfolding settle
  settle-Settled cart fee coupon same reached =
      let low : Failure = bad_request "商品金额未达到优惠券使用门槛" in
      let high : Failure = bad_request "该单无法使用此优惠券" in
      let fine = leb (discount_of coupon) (cart.product_amount + fee) in
      let last : Tx Settlement = pure (record {
        cart = cart;
        delivery_fee = fee;
        discount = discount_of coupon;
        payable_amount = cart.product_amount + fee - discount_of coupon;
      }) in
      Yields-require Settled (meets_threshold cart.product_amount coupon) low
        (require fine high >> last) db
        λ _. Yields-require Settled fine high last db λ below.
          let h = leb→le (discount_of coupon) (cart.product_amount + fee) below in
          (refl, same, reached, omega (arith, h))

  pub checkout-Settled : Yields Settled (checkout clock user_id campus_id dto db)
  unfolding checkout
  checkout-Settled =
      let fee = delivery_fee_for (find_campus campus_id db) dto.delivery_mode in
      let rest = λ (q : Cart × Address).
        read (λ d. delivery_fee_for (find_campus campus_id d) dto.delivery_mode) >>= λ f.
        coupon_for clock user_id campus_id dto.coupon_id >>= settle (q.0) f in
      Yields-bind Quoted Settled (validate_quote clock user_id campus_id dto) rest db
        validate_quote-Quoted
        λ q d (e, same, reached). rw e (
          Yields-after Settled (coupon_for clock user_id campus_id dto.coupon_id) (settle (q.0) fee)
            db (coupon_for-IsReading dto.coupon_id)
            λ coupon. settle-Settled (q.0) fee coupon same reached)
