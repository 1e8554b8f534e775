-- ===== src/Business/Pay/Stock.antt =====
-- The stock under payments: never sold beyond what is free, and nothing lost.
use buchuqin_api.Prelude.{
  ℕ, ◌+◌, ◌≤◌, ◌≡◌, refl, true, List, [], ◌∷◌, Option, none, some, ◌==◌, arith, not,
}
use buchuqin_api.Store.{Failure, Db, ◌>>◌, bad_request, when, discard, write}
use buchuqin_api.Store.Holds.{Holds, Holds-won, Holds-won_last, Holds-bind, Holds-when}
use buchuqin_api.Store.Table.{
  Pairs, none_left, pair, Pairs-refl, Pairs-update, count_where, update_many, find_first,
}
use buchuqin_api.Store.Rows.{
  Clock, Product, Order, OrderLine, Coupon, UserCoupon, UserCouponStatus, DeliveryMode, instant,
  scheduled,
}
use buchuqin_api.Business.Closing.{move_coupon, is_pending}
use buchuqin_api.Business.Pay.{
  can_sell, sell, sell_line, sell_lines, count_use, use_coupon, bonus_grant, bonus_of, grant_bonus,
  is_coupon_id, has_coupon_id, claim_quota, create_user_coupon, notify, pay_order, is_unexpired,
  settle_payment, finish_payment, clear_cart,
}

-- A product after sales: the units that left the stock are counted as sold, and where the stock was
-- above what is locked, it is so still.
pub record IsSold (p q : Product) : Type 0 where
  pub id : q.id ≡ p.id
  pub locked_stock : q.locked_stock ≡ p.locked_stock
  pub balance : q.stock + q.sales ≡ p.stock + p.sales
  pub falls : q.stock ≤ p.stock
  pub free : p.locked_stock ≤ p.stock → q.locked_stock ≤ q.stock

pub IsSold-refl : (p : Product) → IsSold p p
IsSold-refl p = record {
  id = refl;
  locked_stock = refl;
  balance = refl;
  falls = omega arith;
  free = λ h. h;
}

IsSold-trans : (p q r : Product) → IsSold p q → IsSold q r → IsSold p r
IsSold-trans p q r h k = ground arith

sell-IsSold : (l : OrderLine) (p : Product) → can_sell l p ≡ true → IsSold p (sell l p)
sell-IsSold l p h = ground arith

Pairs-trans :
    (xs ys zs : List Product) → Pairs IsSold xs ys → Pairs IsSold ys zs → Pairs IsSold xs zs
Pairs-trans xs ys zs none_left none_left = none_left
Pairs-trans xs ys zs (pair {x} {y} h t) (pair {y = z} k u) =
    pair (IsSold-trans x y z h k) (Pairs-trans _ _ _ t u)

module _ (before : List Product) (os : List Order) where
  -- The products may have been sold since `before`, and the orders are `os`.
  abbrev pub SoldSince : Db → Type 0
  SoldSince db = Pairs IsSold before db.products × (db.orders ≡ os)

  sell_line-sold : (l : OrderLine) (db : Db) → SoldSince db → Holds SoldSince (sell_line l db)
  unfolding sell_line
  sell_line-sold l db h =
      Holds-won_last SoldSince (count_where (can_sell l) db.products) (bad_request "库存不足") _ (
        Pairs-trans before db.products _ h.0
            (Pairs-update IsSold IsSold-refl (can_sell l) (sell l) db.products (sell-IsSold l)),
        h.1,
      )

  sell_lines-sold :
      (ls : List OrderLine) (db : Db) → SoldSince db → Holds SoldSince (sell_lines ls db)
  unfolding sell_lines
  sell_lines-sold [] db h = h
  sell_lines-sold (l ∷ ls) db h =
      Holds-bind SoldSince SoldSince (sell_line l) (λ _. sell_lines ls) db (sell_line-sold l db h)
        (λ _ db' h'. sell_lines-sold ls db' h')

-- The steps of a payment that leave the products and the orders alone, under any predicate of the
-- products and the orders.
module _ (S : List Product → List Order → Type 0) where
  abbrev OnStock : Db → Type 0
  OnStock db = S db.products db.orders

  move_coupon-stock :
      (s t : UserCouponStatus) (id : Option ℕ) (db : Db)
      → S db.products db.orders
      → Holds OnStock (move_coupon s t id db)
  unfolding move_coupon
  move_coupon-stock s t none db h = h
  move_coupon-stock s t (some id) db h = h

  count_use-stock :
      (held : Option UserCoupon) (db : Db)
      → S db.products db.orders
      → S (count_use held db).products (count_use held db).orders
  unfolding count_use
  count_use-stock none db h = h
  count_use-stock (some c) db h = h

  use_coupon-stock :
      (id : Option ℕ) (db : Db) → S db.products db.orders → Holds OnStock (use_coupon id db)
  unfolding use_coupon
  use_coupon-stock none db h = h
  use_coupon-stock (some id) db h =
      let first = move_coupon UserCouponStatus.locked UserCouponStatus.used (some id) in
      let count = write λ db. count_use (find_first (has_coupon_id id) db.user_coupons) db in
      Holds-bind OnStock OnStock first (λ used. when (not (used == 0)) count) db
        (move_coupon-stock UserCouponStatus.locked UserCouponStatus.used (some id) db h)
        λ used db' h'.
          Holds-when OnStock (not (used == 0)) count db' h'
            (count_use-stock (find_first (has_coupon_id id) db'.user_coupons) db' h')

  claim_quota-stock : (c : ℕ) (db : Db) → S db.products db.orders → Holds OnStock (claim_quota c db)
  unfolding claim_quota
  claim_quota-stock c db h = h

  give-stock :
      (u c : ℕ) (db : Db)
      → S db.products db.orders
      → Holds OnStock ((discard (create_user_coupon u c) >> notify u "赠券到账") db)
  unfolding create_user_coupon notify
  give-stock u c db h = h

  bonus_grant-stock :
      (u c : ℕ) (db : Db) → S db.products db.orders → Holds OnStock (bonus_grant u c db)
  unfolding bonus_grant
  bonus_grant-stock u c db h =
      let give = discard (create_user_coupon u c) >> notify u "赠券到账" in
      Holds-bind OnStock OnStock (claim_quota c) (λ taken. when (not (taken == 0)) give) db
        (claim_quota-stock c db h)
        λ taken db' h'. Holds-when OnStock (not (taken == 0)) give db' h' (give-stock u c db' h')

  bonus_of-stock :
      (clock : Clock) (u : ℕ) (c : Option Coupon) (db : Db)
      → S db.products db.orders
      → Holds OnStock (bonus_of clock u c db)
  unfolding bonus_of
  bonus_of-stock clock u none db h = h
  bonus_of-stock clock u (some c) db h =
      Holds-when OnStock (is_unexpired clock c.expires_at) (bonus_grant u c.id) db h
        (bonus_grant-stock u c.id db h)

  grant_bonus-stock :
      (clock : Clock) (b : Option ℕ) (u : ℕ) (m : DeliveryMode) (db : Db)
      → S db.products db.orders
      → Holds OnStock (grant_bonus clock b u m db)
  unfolding grant_bonus
  grant_bonus-stock clock (some b) u scheduled db h =
      bonus_of-stock clock u (find_first (is_coupon_id b) db.coupons) db h
  grant_bonus-stock clock (some b) u instant db h = h
  grant_bonus-stock clock none u m db h = h

-- What follows the conditional update of the order sells its lines and touches no other stock.
after_sale :
    (clock : Clock) (bonus : Option ℕ) (user_id : ℕ) (raw : Order) (db : Db)
    (S : List Product → List Order → Type 0)
    → S db.products db.orders
    → Holds
        (λ db. S db.products db.orders)
        ((use_coupon raw.coupon_id >> finish_payment clock bonus user_id raw) db)
unfolding finish_payment notify
after_sale clock bonus user_id raw db S h =
    let Q = λ (db : Db). S db.products db.orders in
    let last = notify user_id "支付成功" in
    let rest = grant_bonus clock bonus user_id raw.delivery_mode >> last in
    Holds-bind Q Q (use_coupon raw.coupon_id) (λ _. finish_payment clock bonus user_id raw) db
      (use_coupon-stock S raw.coupon_id db h)
      λ _ db' h'.
        Holds-bind Q Q (grant_bonus clock bonus user_id raw.delivery_mode) (λ _. last)
          (clear_cart user_id db')
          (grant_bonus-stock S clock bonus user_id raw.delivery_mode (clear_cart user_id db') h')
          λ _ db'' h''. h''

pub settle_payment-sold :
    (clock : Clock) (bonus : Option ℕ) (user_id : ℕ) (raw : Order) (items : List OrderLine)
    (db : Db)
    → Holds
        (SoldSince db.products
          (update_many (is_pending raw.id) (pay_order clock raw items) db.orders))
        (settle_payment clock bonus user_id raw items db)
unfolding settle_payment
settle_payment-sold clock bonus user_id raw items db =
    let Q =
      SoldSince db.products
        (update_many (is_pending raw.id) (pay_order clock raw items) db.orders) in
    let db₁ = record db {
      orders = update_many (is_pending raw.id) (pay_order clock raw items) db.orders;
    } in
    let rest = use_coupon raw.coupon_id >> finish_payment clock bonus user_id raw in
    let e : Failure = bad_request "订单状态已变化" in
    Holds-won Q (count_where (is_pending raw.id) db.orders) e (sell_lines items >> rest) db₁ (
      Holds-bind Q Q (sell_lines items) (λ _. rest) db₁
        (sell_lines-sold db.products db₁.orders items db₁
          (Pairs-refl IsSold IsSold-refl db.products, refl))
        λ _ db' h'.
          after_sale clock bonus user_id raw db'
            (λ ps os. Pairs IsSold db.products ps × (os ≡ db₁.orders)) h')
