-- ===== src/Business/Orders/Laws.antt =====
-- Payment and cancellation of an order exclude each other.
use buchuqin_api.Prelude.{ℕ, ◌≡◌, List, Option, none, some, not, arith}
use buchuqin_api.Common.Status.{Status, is_status}
use buchuqin_api.Store.{Db, ok, Failure, bad_request, ◌>>=◌, ◌>>◌, require, won, update_orders}
use buchuqin_api.Store.Holds.{Holds, IsThrown, Holds-require, Holds-won}
use buchuqin_api.Store.Table.{count_where, update_many, count_where-update_out}
use buchuqin_api.Store.Rows.{Clock, Order}
use buchuqin_api.Business.Closing.{is_pending, close_order}
use buchuqin_api.Business.Pay.{pay_pending}
use buchuqin_api.Business.Pay.Outcome.{pay_pending-IsSettled, pay_pending-IsThrown}
use buchuqin_api.Business.Orders.{cancel_read, release_coupon}

-- No order of this number waits to be paid.
abbrev IsSettled : ℕ → Db → Type 0
IsSettled id db = count_where (is_pending id) db.orders ≡ 0

pub release_coupon-orders :
    (id : Option ℕ) (Q : List Order → Type 0) (db : Db)
    → Q db.orders
    → Holds (λ d. Q d.orders) (release_coupon id db)
unfolding release_coupon
release_coupon-orders none Q db h = h
release_coupon-orders (some id) Q db h = h

pub cancel_read-Holds :
    (raw : Order) (db : Db) (Q : Db → Type 0)
    → Holds Q (
        (update_orders (is_pending raw.id) (close_order "订单已取消") >>= λ n.
        won n (bad_request "订单状态已变化") >> release_coupon raw.coupon_id)
          db)
    → Holds Q (cancel_read raw db)
unfolding cancel_read
cancel_read-Holds raw db Q h =
    let not_pending : Failure = bad_request "当前状态不可取消" in
    let last = update_orders (is_pending raw.id) (close_order "订单已取消") >>= λ n.
    won n (bad_request "订单状态已变化") >> release_coupon raw.coupon_id in
    let pending = is_status raw.status Status.pending_payment in
    Holds-require Q (not (is_status raw.status Status.paid)) (bad_request "订单已支付，如需取消请联系客服处理")
      (require pending not_pending >> last) db
      λ _. Holds-require Q pending not_pending last db λ _. h

cancel_read-IsSettled : (raw : Order) (db : Db) → Holds (IsSettled raw.id) (cancel_read raw db)
cancel_read-IsSettled raw db =
    let orders = update_many (is_pending raw.id) (close_order "订单已取消") db.orders in
    let gone : count_where (is_pending raw.id) orders ≡ 0 =
      count_where-update_out (is_pending raw.id) (close_order "订单已取消") db.orders
        (λ x h. ground arith) in
    cancel_read-Holds raw db (IsSettled raw.id) (
      Holds-won (IsSettled raw.id) (count_where (is_pending raw.id) db.orders)
        (bad_request "订单状态已变化") (release_coupon raw.coupon_id) (record db { orders = orders })
        (release_coupon-orders raw.coupon_id (λ os. count_where (is_pending raw.id) os ≡ 0)
          (record db { orders = orders }) gone))

cancel_read-IsThrown : (raw : Order) (db : Db) → IsSettled raw.id db → IsThrown (cancel_read raw db)
cancel_read-IsThrown raw db h = cancel_read-Holds raw db (λ _. ⊥) (rw h tt)

-- A cancelled order is not paid: after a cancellation that went through, a payment fails, also one that had
-- read the order while it was still waiting to be paid.
pub cancel_read-pay_pending :
    (clock : Clock) (bonus : Option ℕ) (user_id : ℕ) (payer canceller : Order) (db d : Db)
    → payer.id ≡ canceller.id
    → cancel_read canceller db ≡ ok tt d
    → IsThrown (pay_pending clock bonus user_id payer d)
cancel_read-pay_pending clock bonus user_id payer canceller db d same done =
    let gone : IsSettled canceller.id d = rw done at (cancel_read-IsSettled canceller db) in
    pay_pending-IsThrown clock bonus user_id payer d (rw same gone)

-- A paid order is not cancelled: after a payment that went through, a cancellation fails, also one that had
-- read the order while it was still waiting to be paid.
pub pay_pending-cancel_read :
    (clock : Clock) (bonus : Option ℕ) (user_id : ℕ) (payer canceller : Order) (db d : Db)
    → payer.id ≡ canceller.id
    → pay_pending clock bonus user_id payer db ≡ ok tt d
    → IsThrown (cancel_read canceller d)
pay_pending-cancel_read clock bonus user_id payer canceller db d same done =
    let gone : IsSettled payer.id d =
      rw done at (pay_pending-IsSettled clock bonus user_id payer db) in
    cancel_read-IsThrown canceller d (rw (← same) gone)
