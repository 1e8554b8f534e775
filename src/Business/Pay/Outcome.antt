-- ===== src/Business/Pay/Outcome.antt =====
-- How a payment ends: it is paid once, what it sells was free, and a late one changes nothing.
use buchuqin_api.Prelude.{
  le→leb, ℕ, ◌+◌, ◌≤◌, ◌≡◌, refl, true, List, [], ◌∷◌, Option, some, ◌==◌, ◌&&◌, leb, arith,
  Bool-cases, inl, inr, not, ◌⊎◌,
}
use buchuqin_api.Common.Status.{Status, is_status}
use buchuqin_api.Store.{
  Db, ok, Failure, ◌>>=◌, ◌>>◌, pure, expect, bad_request, discard, not_found, transaction,
}
use buchuqin_api.Store.Holds.{
  Holds, IsThrown, Holds-transaction, Holds-require, Holds-bind, Holds-when, Holds-expect,
  Holds-map, IsThrown-throw,
}
use buchuqin_api.Store.Table.{
  Pairs, Pairs-refl, count_where, update_many, find_first, count_where-update_out,
}
use buchuqin_api.Store.Rows.{Clock, Product, Order, OrderLine, UserCouponStatus}
use buchuqin_api.Business.Limits.{assert_purchase_limit, within_limits, contains, is_limited}
use buchuqin_api.Business.Cost.{
  snapshot_line, snapshot_lines, snapshot_of, costed, find_product, unit_gross_cost,
}
use buchuqin_api.Common.ProductUnits.{per_retail_unit_cost_fen}
use buchuqin_api.Business.Closing.{is_pending, move_coupon, close_order, payment_timeout_ms}
use buchuqin_api.Business.Pay.{
  pay, pay_read, pay_pending, pay_expired, settle_payment, recheck_limits, pay_order, product_ids,
}
use buchuqin_api.Business.Pay.Stock.{IsSold, IsSold-refl, SoldSince, settle_payment-sold}

-- The parts of a payment that only read.
module _ (Q : Db → Type 0) where
  snapshot_line-reads : (l : OrderLine) (db : Db) → Q db → Holds Q (snapshot_line l db)
  unfolding snapshot_line snapshot_of
  snapshot_line-reads l db h =
      let none_left : Failure = bad_request "库存不足" in
      let no_price : Failure = bad_request "未填写本地进货价" in
      let bad_case : Failure = bad_request "每件含量必须是 >=1 的整数" in
      let last = λ (p : Product) (g : ℕ).
        expect (per_retail_unit_cost_fen p.cost_price p.units_per_case) bad_case >>= λ c.
        pure (costed l p g c) in
      let priced =
        λ (p : Product). expect (unit_gross_cost p.procurement_mode p) no_price >>= last p in
      Holds-expect Q (find_product l.product_id db) none_left (snapshot_of l) db λ p _.
        Holds-require Q (leb (l.quantity + p.locked_stock) p.stock) none_left (priced p) db λ _.
          Holds-expect Q (unit_gross_cost p.procurement_mode p) no_price (last p) db λ g _.
            Holds-expect Q (per_retail_unit_cost_fen p.cost_price p.units_per_case) bad_case
              (λ c. pure (costed l p g c)) db λ c _. h

  snapshot_lines-reads : (ls : List OrderLine) (db : Db) → Q db → Holds Q (snapshot_lines ls db)
  unfolding snapshot_lines
  snapshot_lines-reads [] db h = h
  snapshot_lines-reads (l ∷ ls) db h =
      let rest = λ (l' : OrderLine). snapshot_lines ls >>= λ ls'. pure (l' ∷ ls') in
      Holds-bind Q Q (snapshot_line l) rest db (snapshot_line-reads l db h) λ l' db' h'.
        Holds-bind Q Q (snapshot_lines ls) (λ ls'. pure (l' ∷ ls')) db'
          (snapshot_lines-reads ls db' h') λ ls' db'' h''. h''

  assert_purchase_limit-reads :
      (clock : Clock) (user_id : ℕ) (ids : List ℕ) (db : Db)
      → Q db
      → Holds Q (assert_purchase_limit clock user_id ids db)
  unfolding assert_purchase_limit
  assert_purchase_limit-reads clock user_id ids db h =
      elim (Bool-cases (within_limits clock user_id ids db.orders db.products)) [
        | inl e ↦ rw e h
        | inr e ↦ rw e tt
      ]

  recheck_limits-reads :
      (clock : Clock) (user_id : ℕ) (ls : List OrderLine) (db : Db)
      → Q db
      → Holds Q (recheck_limits clock user_id ls db)
  unfolding recheck_limits
  recheck_limits-reads clock user_id ls db h =
      let limited =
        count_where (λ (p : Product). contains (product_ids ls) p.id && is_limited p.purchase_limit)
          db.products in
      Holds-when Q (not (limited == 0)) (assert_purchase_limit clock user_id (product_ids ls)) db h
        (assert_purchase_limit-reads clock user_id (product_ids ls) db h)

-- A payment that goes through is one of an order that was waiting for it, and it settles that order:
-- `settle_payment` is what it does.
module _ (clock : Clock) (bonus : Option ℕ) (user_id : ℕ) where
  pay_pending-Holds :
      (raw : Order) (Q : Db → Type 0) (db : Db)
      → ((items : List OrderLine) → Holds Q (settle_payment clock bonus user_id raw items db))
      → Holds Q (pay_pending clock bonus user_id raw db)
  unfolding pay_pending
  pay_pending-Holds raw Q db h =
      let same = λ (d : Db). d ≡ db in
      let settle = λ (items : List OrderLine). settle_payment clock bonus user_id raw items in
      let recheck =
        λ (items : List OrderLine). recheck_limits clock user_id items >> settle items in
      Holds-require Q (is_status raw.status Status.pending_payment) (bad_request "当前状态不可支付")
        (snapshot_lines raw.items >>= recheck) db
        λ _.
          Holds-bind same Q (snapshot_lines raw.items) recheck db
            (snapshot_lines-reads same raw.items db refl)
            λ items db' e'.
              Holds-bind same Q (recheck_limits clock user_id items) (λ _. settle items) db'
                (recheck_limits-reads same clock user_id items db' e')
                λ _ db'' e''. rw e'' (h items)

  pay_expired-IsThrown : (raw : Order) (db : Db) → IsThrown (pay_expired raw db)
  unfolding pay_expired
  pay_expired-IsThrown raw db =
      IsThrown-throw
        (discard (move_coupon UserCouponStatus.locked UserCouponStatus.released raw.coupon_id))
        (bad_request "订单支付已超时")
        (record db { orders = update_many (is_pending raw.id) (close_order "支付超时已关闭") db.orders })

  settle_payment-IsThrown :
      (raw : Order) (items : List OrderLine) (db : Db)
      → count_where (is_pending raw.id) db.orders ≡ 0
      → IsThrown (settle_payment clock bonus user_id raw items db)
  unfolding settle_payment
  settle_payment-IsThrown raw items db none_pending = rw none_pending tt

  pay_read-IsSold :
      (raw : Order) (db : Db)
      → Holds (λ d. Pairs IsSold db.products d.products) (pay_read clock bonus user_id raw db)
  unfolding pay_read
  pay_read-IsSold raw db =
      let Q = λ (d : Db). Pairs IsSold db.products d.products in
      elim (Bool-cases (is_status raw.status Status.paid)) [
        | inl e ↦ rw e (Pairs-refl IsSold IsSold-refl db.products)
        | inr e ↦ rw e (elim (Bool-cases (leb (raw.created_at + payment_timeout_ms) clock.now)) [
          | inl l ↦ rw l (
              Holds-map (λ _. ⊥) Q (pay_expired raw db) (λ _ b. absurd b)
                (pay_expired-IsThrown raw db))
          | inr l ↦ rw l (
              pay_pending-Holds raw Q db λ items.
                Holds-map
                  (SoldSince db.products
                    (update_many (is_pending raw.id) (pay_order clock raw items) db.orders))
                  Q (settle_payment clock bonus user_id raw items db) (λ _ b. b.0)
                  (settle_payment-sold clock bonus user_id raw items db))
        ])
      ]

-- Sales never reach past the stock that is free: whatever a payment does, each product's stock and sales
-- keep their sum, its stock does not rise, and a stock that covered what is locked still covers it.
pub pay-IsSold :
    (clock : Clock) (bonus : Option ℕ) (user_id id : ℕ) (db : Db)
    → Pairs IsSold db.products (transaction (pay clock bonus user_id id) db).products
unfolding pay
pay-IsSold clock bonus user_id id db =
    let Q = λ (d : Db). Pairs IsSold db.products d.products in
    let found = find_first (λ (o : Order). (o.id == id) && (o.user_id == user_id)) db.orders in
    Holds-transaction Q (pay clock bonus user_id id) db (Pairs-refl IsSold IsSold-refl db.products)
      (Holds-expect Q found (not_found "订单不存在") (pay_read clock bonus user_id) db
        λ raw _. pay_read-IsSold clock bonus user_id raw db)

-- After a payment that goes through no order of the number waits to be paid.
pub pay_pending-IsSettled :
    (clock : Clock) (bonus : Option ℕ) (user_id : ℕ) (raw : Order) (db : Db)
    → Holds
        (λ d. count_where (is_pending raw.id) d.orders ≡ 0)
        (pay_pending clock bonus user_id raw db)
pay_pending-IsSettled clock bonus user_id raw db =
    let Q = λ (d : Db). count_where (is_pending raw.id) d.orders ≡ 0 in
    pay_pending-Holds clock bonus user_id raw Q db λ items.
      Holds-map
        (SoldSince db.products
          (update_many (is_pending raw.id) (pay_order clock raw items) db.orders))
        Q (settle_payment clock bonus user_id raw items db)
        (λ d b. rw (b.1) (
          count_where-update_out (is_pending raw.id) (pay_order clock raw items) db.orders
            (λ x h. ground arith)))
        (settle_payment-sold clock bonus user_id raw items db)

pub pay_pending-IsThrown :
    (clock : Clock) (bonus : Option ℕ) (user_id : ℕ) (raw : Order) (db : Db)
    → count_where (is_pending raw.id) db.orders ≡ 0
    → IsThrown (pay_pending clock bonus user_id raw db)
pay_pending-IsThrown clock bonus user_id raw db gone =
    pay_pending-Holds clock bonus user_id raw (λ _. ⊥) db
      λ items. settle_payment-IsThrown clock bonus user_id raw items db gone

-- An order is settled once: after `pay_pending`, the part of a payment that settles an order read as waiting,
-- went through, every other run of it for the order throws, also one that had read the order before. (A payment
-- that reads the order as paid is no such run: it returns and settles nothing.)
pub pay_pending_once :
    (clock clock' : Clock) (bonus bonus' : Option ℕ) (user_id : ℕ) (raw raw' : Order) (db db' : Db)
    → raw'.id ≡ raw.id
    → pay_pending clock bonus user_id raw db ≡ ok tt db'
    → IsThrown (pay_pending clock' bonus' user_id raw' db')
pay_pending_once clock clock' bonus bonus' user_id raw raw' db db' same done =
    let gone : count_where (is_pending raw.id) db'.orders ≡ 0 =
      rw done at (pay_pending-IsSettled clock bonus user_id raw db) in
    pay_pending-IsThrown clock' bonus' user_id raw' db' (rw same gone)

-- A payment that comes after the order was paid, or after its time, leaves the database as it was: in
-- the second case the order is not closed and its coupon not released.
pub pay_unchanged :
    (clock : Clock) (bonus : Option ℕ) (user_id id : ℕ) (raw : Order) (db : Db)
    → find_first (λ (o : Order). (o.id == id) && (o.user_id == user_id)) db.orders ≡ some raw
    → (is_status raw.status Status.paid ≡ true) ⊎ (raw.created_at + payment_timeout_ms ≤ clock.now)
    → transaction (pay clock bonus user_id id) db ≡ db
unfolding pay pay_read
pay_unchanged clock bonus user_id id raw db found late =
    Holds-transaction (λ d. d ≡ db) (pay clock bonus user_id id) db refl
      (rw found (elim (Bool-cases (is_status raw.status Status.paid)) [
        | inl e ↦ rw e refl
        | inr e ↦
            let over : leb (raw.created_at + payment_timeout_ms) clock.now ≡ true = elim late [
              | inl p ↦ absurd (ground arith)
              | inr l ↦ le→leb (raw.created_at + payment_timeout_ms) clock.now l
            ] in
            rw (e, over)
              (Holds-map (λ _. ⊥) (λ d. d ≡ db) (pay_expired raw db) (λ _ b. absurd b)
                (pay_expired-IsThrown clock bonus user_id raw db))
      ]))
