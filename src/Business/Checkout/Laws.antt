-- ===== src/Business/Checkout/Laws.antt =====
-- An order has the price of its lines, and a coupon serves one order at a time.

use buchuqin_api.Prelude.{
  ap, sym, ℕ, ◌+◌, ◌*◌, ◌≤◌, ◌≡◌, refl, List, [], ◌∷◌, ◌++◌, Option, none, some, arith, map, leb→le,
}
use buchuqin_api.Common.Status.{Status}
use buchuqin_api.Store.{Db, ok, bad_request, ◌>>=◌}
use buchuqin_api.Store.Holds.{Holds, IsThrown, Holds-bind}
use buchuqin_api.Store.Yields.{Yields, Yields-bind, Yields-Holds, Yields-won_last}
use buchuqin_api.Store.Table.{count_where, count_where-update_out}
use buchuqin_api.Store.Rows.{Campus, Clock, Address, Order, OrderLine, UserCouponStatus}
use buchuqin_api.Business.Closing.{set_coupon}
use buchuqin_api.Business.Cart.{
  CartLine, Cart, cart_data, cart_amount, cart_quantity, threshold_for, campus_of, find_user,
}
use buchuqin_api.Business.Checkout.{
  CreateOrder, validate_quote, Settlement, checkout, is_lockable, lock_coupon, new_order,
  place_order, create_order,
}
use buchuqin_api.Business.Checkout.Quote.{Quoted, Settled, validate_quote-Quoted, checkout-Settled}

-- The sums over the lines of an order.
abbrev pub lines_amount : List OrderLine → ℕ
lines_amount [] = 0
lines_amount (l ∷ ls) = l.price * l.quantity + lines_amount ls

abbrev pub lines_quantity : List OrderLine → ℕ
lines_quantity [] = 0
lines_quantity (l ∷ ls) = l.quantity + lines_quantity ls

abbrev line_of : CartLine → OrderLine
line_of l = l.line

cart_amount-lines_amount : (ls : List CartLine) → lines_amount (map line_of ls) ≡ cart_amount ls
unfolding cart_amount
cart_amount-lines_amount [] = refl
cart_amount-lines_amount (l ∷ ls) = rw (cart_amount-lines_amount ls) refl

cart_quantity-lines_quantity :
    (ls : List CartLine) → lines_quantity (map line_of ls) ≡ cart_quantity ls
unfolding cart_quantity
cart_quantity-lines_quantity [] = refl
cart_quantity-lines_quantity (l ∷ ls) = rw (cart_quantity-lines_quantity ls) refl

-- An order that waits to be paid, with amounts that follow from its lines.
pub record IsPriced (o : Order) : Type 0 where
  pub waiting : o.status ≡ Status.pending_payment
  pub product_amount : o.product_amount ≡ lines_amount o.items
  pub total_quantity : o.total_quantity ≡ lines_quantity o.items
  pub payable_amount : o.payable_amount + o.discount ≡ o.product_amount + o.delivery_fee
  pub threshold : o.delivery_threshold ≤ o.product_amount

-- The least amount of an order of a campus, and that of a user without one: ten yuan.
abbrev pub least_amount : Option Campus → ℕ
least_amount none = 1000
least_amount (some c) = c.delivery_threshold

-- The order records the least amount of its user's campus.
abbrev pub HasThreshold : ℕ → Db → Order → Type 0
HasThreshold user_id db o =
    o.delivery_threshold ≡ least_amount (campus_of (find_user user_id db) db)

threshold_for-least_amount : (c : Option Campus) → threshold_for c ≡ least_amount c
unfolding threshold_for
threshold_for-least_amount none = refl
threshold_for-least_amount (some c) = refl

new_order-IsPriced :
    (clock : Clock) (user_id : ℕ) (dto : CreateOrder) (a : Address) (s : Settlement) (id : ℕ)
    (db d : Db)
    → Settled clock user_id 0 dto db s d
    → IsPriced (new_order clock.now user_id dto a s id)
      × HasThreshold user_id db (new_order clock.now user_id dto a s id)
unfolding cart_data threshold_for
new_order-IsPriced clock user_id dto a s id db d (e, same, reached, sum) = (
  record {
    waiting = refl;
    product_amount =
        rw same (sym (cart_amount-lines_amount (cart_data clock.now user_id db).items));
    total_quantity =
        rw same (sym (cart_quantity-lines_quantity (cart_data clock.now user_id db).items));
    payable_amount = sum;
    threshold = leb→le s.cart.delivery_threshold s.cart.product_amount reached;
  },
  rw same (threshold_for-least_amount (campus_of (find_user user_id db) db)),
)

-- The database has one order more, and its amounts follow from its lines.
abbrev pub HasNew : ℕ → Db → Db → Type 0
HasNew user_id db d =
    (o : Order) × (d.orders ≡ db.orders ++ (o ∷ [])) × (IsPriced o × HasThreshold user_id db o)

lock_coupon-orders :
    (user_id : ℕ) (id : Option ℕ) (db : Db)
    → Yields (λ _ d. d.orders ≡ db.orders) (lock_coupon user_id id db)
unfolding lock_coupon
lock_coupon-orders user_id none db = refl
lock_coupon-orders user_id (some id) db =
    Yields-won_last (λ d. d.orders ≡ db.orders)
      (count_where (is_lockable user_id id) db.user_coupons) (bad_request "优惠券不可用或已被锁定") _ refl

-- A new order waits to be paid, its amount of products and its number of units are those of its lines, what is
-- to be paid is that amount with the delivery fee less the discount, and the amount reaches the least amount
-- of the user's campus (of ten yuan for a user without one), which the order records; no other order changes.
pub create_order-IsPriced :
    (clock : Clock) (user_id campus_id : ℕ) (dto : CreateOrder) (db : Db)
    → Holds (HasNew user_id db) (create_order clock user_id campus_id dto db)
unfolding create_order place_order
create_order-IsPriced clock user_id campus_id dto db =
    let Q = λ (id : ℕ) (d : Db). HasNew user_id db d in
    let place = λ (a : Address) (s : Settlement). place_order clock.now user_id dto a s in
    let insert = λ (a : Address) (s : Settlement) (d : Db). ok d.next_id (record d {
      orders = d.orders ++ (new_order clock.now user_id dto a s d.next_id ∷ []);
      next_id = d.next_id + 1;
    }) in
    let settled = λ (q : Cart × Address). checkout clock user_id campus_id dto >>= place (q.1) in
    Yields-Holds (HasNew user_id db) (create_order clock user_id campus_id dto db) (
      Yields-bind (Quoted clock user_id campus_id dto db) Q
        (validate_quote clock user_id campus_id dto) settled db
        (validate_quote-Quoted clock user_id campus_id dto db)
        λ q d (e, _, _). rw e (
          Yields-bind (Settled clock user_id campus_id dto db) Q
            (checkout clock user_id campus_id dto) (place (q.1)) db
            (checkout-Settled clock user_id campus_id dto db)
            λ s d' h.
              Yields-bind (λ _ x. x.orders ≡ db.orders) Q (lock_coupon user_id dto.coupon_id)
                (λ _. insert (q.1) s) d' (rw (h.0) (lock_coupon-orders user_id dto.coupon_id db))
                λ _ x same. (
                  new_order clock.now user_id dto (q.1) s x.next_id,
                  ap (λ os. os ++ (new_order clock.now user_id dto (q.1) s x.next_id ∷ [])) same,
                  new_order-IsPriced clock user_id dto (q.1) s x.next_id db d' h,
                )))

lock_coupon-IsGone :
    (user_id c : ℕ) (db : Db)
    → Yields
        (λ _ d. count_where (is_lockable user_id c) d.user_coupons ≡ 0)
        (lock_coupon user_id (some c) db)
unfolding lock_coupon
lock_coupon-IsGone user_id c db =
    Yields-won_last (λ d. count_where (is_lockable user_id c) d.user_coupons ≡ 0)
      (count_where (is_lockable user_id c) db.user_coupons) (bad_request "优惠券不可用或已被锁定") _
      (count_where-update_out (is_lockable user_id c) (set_coupon UserCouponStatus.locked)
        db.user_coupons λ x h. ground arith)

place_order-IsGone :
    (now user_id c : ℕ) (dto : CreateOrder) (a : Address) (s : Settlement) (db : Db)
    → dto.coupon_id ≡ some c
    → Holds
        (λ d. count_where (is_lockable user_id c) d.user_coupons ≡ 0)
        (place_order now user_id dto a s db)
unfolding place_order
place_order-IsGone now user_id c dto a s db e =
    let Q = λ (d : Db). count_where (is_lockable user_id c) d.user_coupons ≡ 0 in
    let insert = λ (d : Db). ok d.next_id (record d {
      orders = d.orders ++ (new_order now user_id dto a s d.next_id ∷ []);
      next_id = d.next_id + 1;
    }) in
    Yields-Holds Q (place_order now user_id dto a s db) (
      Yields-bind (λ _ d. Q d) (λ _ d. Q d) (lock_coupon user_id dto.coupon_id) (λ _. insert) db
        (rw e (lock_coupon-IsGone user_id c db)) λ _ d h. h)

lock_coupon-IsThrown :
    (user_id c : ℕ) (db : Db)
    → count_where (is_lockable user_id c) db.user_coupons ≡ 0
    → IsThrown (lock_coupon user_id (some c) db)
unfolding lock_coupon
lock_coupon-IsThrown user_id c db gone = rw gone tt

-- A coupon serves one order: after an order was placed with it, no other order of the person is placed with
-- it, whatever the other request had read before.
pub place_order_once :
    (now later user_id c id : ℕ) (dto other : CreateOrder) (a b : Address) (s t : Settlement)
    (db d : Db)
    → dto.coupon_id ≡ some c
    → other.coupon_id ≡ some c
    → place_order now user_id dto a s db ≡ ok id d
    → IsThrown (place_order later user_id other b t d)
unfolding place_order
place_order_once now later user_id c id dto other a b s t db d e f done =
    let gone : count_where (is_lockable user_id c) d.user_coupons ≡ 0 =
      rw done at (place_order-IsGone now user_id c dto a s db e) in
    let insert = λ (x : Db). ok x.next_id (record x {
      orders = x.orders ++ (new_order later user_id other b t x.next_id ∷ []);
      next_id = x.next_id + 1;
    }) in
    Holds-bind (λ _. ⊥) (λ _. ⊥) (lock_coupon user_id other.coupon_id) (λ _. insert) d
      (rw f (lock_coupon-IsThrown user_id c d gone)) λ _ _ x. absurd x
