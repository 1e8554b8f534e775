-- ===== src/Business/Pay/Success.antt =====
-- A payment whose lines the free stock covers goes through.
use buchuqin_api.Prelude.{
  ℕ, ◌+◌, ◌≤◌, ◌≡◌, refl, Bool, true, List, [], ◌∷◌, Option, none, some, ◌==◌, ◌&&◌, leb, not,
  if◌then◌else◌, zero, suc, ==_refl, arith, All,
}
use buchuqin_api.Store.{Db, ok, Failure, ◌>>◌, write, when, won, discard, bad_request}
use buchuqin_api.Store.Holds.{IsOk, IsOk-bind, IsOk-when, Holds-top, won_pass}
use buchuqin_api.Store.Table.{find_first, count_where, update_many}
use buchuqin_api.Store.Rows.{
  Clock, Product, Order, OrderLine, Coupon, UserCouponStatus, DeliveryMode, instant, scheduled,
}
use buchuqin_api.Business.Limits.{line_quantity}
use buchuqin_api.Business.Closing.{move_coupon, is_pending}
use buchuqin_api.Business.Pay.{
  can_sell, sell, sell_line, sell_lines, count_use, use_coupon, has_coupon_id, claim_quota,
  create_user_coupon, notify, bonus_grant, bonus_of, grant_bonus, is_unexpired, is_coupon_id,
  clear_cart, finish_payment, settle_payment, pay_order,
}

-- A product with the free stock that all lines on it ask for together.
abbrev pub has_room : List OrderLine → ℕ → Product → Bool
has_room ls id p = (p.id == id) && leb (line_quantity id ls + p.locked_stock) p.stock

-- Each of the lines `some_` has such a product.
abbrev pub HasRoom : List OrderLine → List OrderLine → List Product → Type 0
HasRoom ls some_ ps = All (λ (l : OrderLine). 1 ≤ count_where (has_room ls l.product_id) ps) some_

own_room :
    (l : OrderLine) (ls : List OrderLine) (p : Product)
    → has_room (l ∷ ls) l.product_id p ≡ true
    → can_sell l p ≡ true
unfolding line_quantity
own_room l ls p h = ground (arith, ==_refl l.product_id)

left_room :
    (l : OrderLine) (ls : List OrderLine) (id : ℕ) (p : Product)
    → has_room (l ∷ ls) id p ≡ true
    → has_room ls id (if can_sell l p then sell l p else p) ≡ true
unfolding line_quantity
left_room l ls id p h = ground arith

room-can_sell :
    (l : OrderLine) (ls : List OrderLine) (ps : List Product)
    → 1 ≤ count_where (has_room (l ∷ ls) l.product_id) ps
    → 1 ≤ count_where (can_sell l) ps
room-can_sell l ls [] h = h
room-can_sell l ls (p ∷ ps) h = ground (arith, room-can_sell l ls ps, own_room l ls p)

room-sell :
    (l : OrderLine) (ls : List OrderLine) (id : ℕ) (ps : List Product)
    → 1 ≤ count_where (has_room (l ∷ ls) id) ps
    → 1 ≤ count_where (has_room ls id) (update_many (can_sell l) (sell l) ps)
room-sell l ls id [] h = h
room-sell l ls id (p ∷ ps) h = ground (arith, room-sell l ls id ps, left_room l ls id p)

HasRoom-sell :
    (l : OrderLine) (ls some_ : List OrderLine) (ps : List Product)
    → HasRoom (l ∷ ls) some_ ps
    → HasRoom ls some_ (update_many (can_sell l) (sell l) ps)
HasRoom-sell l ls [] ps h = h
HasRoom-sell l ls (x ∷ xs) ps h = (room-sell l ls x.product_id ps h.0, HasRoom-sell l ls xs ps h.1)

won_ok_last : (n : ℕ) (e : Failure) (db : Db) → 1 ≤ n → won n e db ≡ ok tt db
won_ok_last zero e db h = absurd (omega arith)
won_ok_last (suc n) e db h = refl

sell_line-is :
    (l : OrderLine) (db : Db)
    → 1 ≤ count_where (can_sell l) db.products
    → sell_line l db
      ≡ ok tt (record db { products = update_many (can_sell l) (sell l) db.products })
unfolding sell_line
sell_line-is l db h =
    won_ok_last (count_where (can_sell l) db.products) (bad_request "库存不足")
      (record db { products = update_many (can_sell l) (sell l) db.products }) h

sell_lines-IsOk :
    (ls : List OrderLine) (db : Db) → HasRoom ls ls db.products → IsOk (sell_lines ls db)
unfolding sell_lines
sell_lines-IsOk [] db h = tt
sell_lines-IsOk (l ∷ ls) db h =
    let sold = record db { products = update_many (can_sell l) (sell l) db.products } in
    let line_sold = sell_line-is l db (room-can_sell l ls db.products (h.0)) in
    IsOk-bind (λ d. d ≡ sold) (sell_line l) (λ _. sell_lines ls) db (rw line_sold tt)
      (rw line_sold refl)
      λ _ d e. rw e (sell_lines-IsOk ls sold (HasRoom-sell l ls ls db.products (h.1)))

-- The steps behind the stock never throw.
move_coupon-IsOk : (s t : UserCouponStatus) (id : Option ℕ) (db : Db) → IsOk (move_coupon s t id db)
unfolding move_coupon
move_coupon-IsOk s t none db = tt
move_coupon-IsOk s t (some id) db = tt

use_coupon-IsOk : (id : Option ℕ) (db : Db) → IsOk (use_coupon id db)
unfolding use_coupon
use_coupon-IsOk none db = tt
use_coupon-IsOk (some id) db =
    let locked = UserCouponStatus.locked in
    let used = UserCouponStatus.used in
    let count = write λ d. count_use (find_first (has_coupon_id id) d.user_coupons) d in
    IsOk-bind (λ _. Unit) (move_coupon locked used (some id)) (λ n. when (not (n == 0)) count) db
      (move_coupon-IsOk locked used (some id) db) (Holds-top (move_coupon locked used (some id) db))
      λ n d _. IsOk-when (not (n == 0)) count d tt

bonus_grant-IsOk : (u c : ℕ) (db : Db) → IsOk (bonus_grant u c db)
unfolding bonus_grant claim_quota create_user_coupon notify
bonus_grant-IsOk u c db =
    let give = discard (create_user_coupon u c) >> notify u "赠券到账" in
    IsOk-bind (λ _. Unit) (claim_quota c) (λ n. when (not (n == 0)) give) db tt tt
      λ n d _. IsOk-when (not (n == 0)) give d tt

grant_bonus-IsOk :
    (clock : Clock) (b : Option ℕ) (u : ℕ) (m : DeliveryMode) (db : Db)
    → IsOk (grant_bonus clock b u m db)
unfolding grant_bonus
grant_bonus-IsOk clock none u m db = tt
grant_bonus-IsOk clock (some b) u instant db = tt
grant_bonus-IsOk clock (some b) u scheduled db = of_coupon (find_first (is_coupon_id b) db.coupons)
  where
    of_coupon : (c : Option Coupon) → IsOk (bonus_of clock u c db)
    of_coupon none = tt
    of_coupon (some c) =
        IsOk-when (is_unexpired clock c.expires_at) (bonus_grant u c.id) db
          (bonus_grant-IsOk u c.id db)

finish_payment-IsOk :
    (clock : Clock) (bonus : Option ℕ) (u : ℕ) (raw : Order) (db : Db)
    → IsOk (finish_payment clock bonus u raw db)
unfolding finish_payment notify
finish_payment-IsOk clock bonus u raw db =
    let grant = grant_bonus clock bonus u raw.delivery_mode in
    IsOk-bind (λ _. Unit) grant (λ _. notify u "支付成功") (clear_cart u db)
      (grant_bonus-IsOk clock bonus u raw.delivery_mode (clear_cart u db))
      (Holds-top (grant (clear_cart u db))) λ _ d _. tt

-- The settlement of a payment goes through where the order still waits to be paid and, for each of its lines,
-- a product has the free stock that all lines on it ask for together.
pub settle_payment-IsOk :
    (clock : Clock) (bonus : Option ℕ) (user_id : ℕ) (raw : Order) (items : List OrderLine)
    (db : Db)
    → 1 ≤ count_where (is_pending raw.id) db.orders
    → HasRoom items items db.products
    → IsOk (settle_payment clock bonus user_id raw items db)
unfolding settle_payment
settle_payment-IsOk clock bonus user_id raw items db pending room =
    let e : Failure = bad_request "订单状态已变化" in
    let db₁ = record db {
      orders = update_many (is_pending raw.id) (pay_order clock raw items) db.orders;
    } in
    let finish = finish_payment clock bonus user_id raw in
    let rest = use_coupon raw.coupon_id >> finish in
    rw
      (won_pass (count_where (is_pending raw.id) db.orders) e (sell_lines items >> rest) db₁
        pending)
      (IsOk-bind (λ _. Unit) (sell_lines items) (λ _. rest) db₁ (sell_lines-IsOk items db₁ room)
        (Holds-top (sell_lines items db₁))
        λ _ d _.
          IsOk-bind (λ _. Unit) (use_coupon raw.coupon_id) (λ _. finish) d
            (use_coupon-IsOk raw.coupon_id d) (Holds-top (use_coupon raw.coupon_id d))
            λ _ d' _. finish_payment-IsOk clock bonus user_id raw d')
