-- ===== src/Tests/Customer.antt =====
-- The customer's side on the small shop: payment, cancellation, refunds and coupons.
use buchuqin_api.Prelude.{
  ℕ, ◌+◌, ◌≤◌, ◌<◌, ◌≡◌, ◌≢◌, refl, inr, false, List, [], ◌∷◌, none, some, arith,
}
use buchuqin_api.Common.Status.{Status}
use buchuqin_api.Common.RefundAmount.{after_sale, pre_delivery}
use buchuqin_api.Store.{Db, Outcome, ok, thrown, transaction, find_order}
use buchuqin_api.Store.Holds.{Holds, IsThrown, IsOk}
use buchuqin_api.Store.Table.{Pairs, count_where}
use buchuqin_api.Store.Rows.{Order, UserCouponStatus, CouponTrigger}
use buchuqin_api.Business.Pay.{settle_payment, pay, pay_pending}
use buchuqin_api.Business.Pay.Stock.{IsSold}
use buchuqin_api.Business.Pay.Outcome.{pay-IsSold, pay_pending_once, pay_unchanged}
use buchuqin_api.Business.Limits.{line_quantity}
use buchuqin_api.Business.Pay.Success.{settle_payment-IsOk}
use buchuqin_api.Business.Orders.{cancel_read}
use buchuqin_api.Business.Orders.Laws.{cancel_read-pay_pending, pay_pending-cancel_read}
use buchuqin_api.Business.Refunds.{
  create_refund, cancel_after_sale, refund_amount_for, requested_amount,
}
use buchuqin_api.Business.Refunds.Laws.{
  reserved, create_refund-IsWithin, create_refund-IsOk, create_refund_once,
  create_refund-cancel_after_sale, after_withdrawal,
}
use buchuqin_api.Business.Coupons.{claim_coupon, grant_coupon_inner, existing, is_holding}
use buchuqin_api.Business.Coupons.Held.{grant_signup_once, claim_coupon_limit}
use buchuqin_api.Business.Coupons.Laws.{
  IsIssued, claim_coupon-IsIssued, grant_coupon_inner-IsIssued,
}
use buchuqin_api.Business.Coupons.Wheel.{pick_prize, weight_before, weight_at, pick_prize-Lands}
use buchuqin_api.Tenancy.{marketing_enabled}
use buchuqin_api.Tests.Sample.{
  line, shop, shop_with, order, order_in, clock, late_clock, coupon, held, product,
}

abbrev db_of {ℓ} : {A : Type ℓ} → Outcome A → Db
db_of (ok a db) = db
db_of (thrown e) = shop

abbrev paid_shop : Db
paid_shop = db_of (pay_pending clock none 5 order shop)

pay_pending_runs : pay_pending clock none 5 order shop ≡ ok tt paid_shop
unfolding pay_pending
pay_pending_runs = refl

pay-IsSold_example : Pairs IsSold (product ∷ []) (transaction (pay clock none 5 31) shop).products
pay-IsSold_example = pay-IsSold clock none 5 31 shop

pay_pending_once_example : IsThrown (pay_pending late_clock none 5 order paid_shop)
pay_pending_once_example =
    pay_pending_once clock late_clock none none 5 order order shop paid_shop refl pay_pending_runs

settle_payment-IsOk_example : IsOk (settle_payment clock none 5 order (line ∷ []) shop)
unfolding line_quantity
settle_payment-IsOk_example =
    settle_payment-IsOk clock none 5 order (line ∷ []) shop (omega arith) (omega arith, tt)

pay_unchanged_example : transaction (pay late_clock none 5 31) shop ≡ shop
pay_unchanged_example = pay_unchanged late_clock none 5 31 order shop refl (inr (omega arith))

abbrev cancelled_shop : Db
cancelled_shop = db_of (cancel_read order shop)

cancel_read_runs : cancel_read order shop ≡ ok tt cancelled_shop
unfolding cancel_read
cancel_read_runs = refl

cancel_read-pay_pending_example : IsThrown (pay_pending clock none 5 order cancelled_shop)
cancel_read-pay_pending_example =
    cancel_read-pay_pending clock none 5 order order shop cancelled_shop refl cancel_read_runs

pay_pending-cancel_read_example : IsThrown (cancel_read order paid_shop)
pay_pending-cancel_read_example =
    pay_pending-cancel_read clock none 5 order order shop paid_shop refl pay_pending_runs

-- A delivered order, from which a refund is asked for.
abbrev done_order : Order
done_order = order_in Status.delivered (some 11)

abbrev held_shop : Db
held_shop = db_of (create_refund done_order after_sale "" [] (shop_with done_order))

create_refund_runs :
    create_refund done_order after_sale "" [] (shop_with done_order) ≡ ok 61 held_shop
unfolding create_refund
create_refund_runs = refl

create_refund-IsWithin_example :
    Holds
      (λ d. reserved 31 d ≤ refund_amount_for done_order)
      (create_refund done_order after_sale "" [] (shop_with done_order))
create_refund-IsWithin_example =
    create_refund-IsWithin done_order after_sale "" [] (shop_with done_order)

room_left : refund_amount_for done_order ≡ 900
unfolding refund_amount_for
room_left = refl

create_refund-IsOk_example : IsOk (create_refund done_order after_sale "" [] (shop_with done_order))
unfolding requested_amount
create_refund-IsOk_example =
    create_refund-IsOk done_order after_sale "" [] (shop_with done_order)
      (rw room_left (omega arith)) (omega arith) (rw room_left (omega arith))

not_held : Status.delivered ≢ Status.after_sales
not_held = λ e. ground arith

create_refund_once_example : IsThrown (create_refund done_order pre_delivery "" [] held_shop)
create_refund_once_example =
    create_refund_once done_order done_order after_sale pre_delivery "" "" [] []
      (shop_with done_order) held_shop 61 not_held refl refl create_refund_runs

create_refund-cancel_after_sale_example :
    (d : Db) × (x : Order) × (cancel_after_sale 5 61 held_shop ≡ ok tt d)
    × (find_order 31 d ≡ some x)
    × (x.status ≡ after_withdrawal Status.delivered)
create_refund-cancel_after_sale_example =
    create_refund-cancel_after_sale done_order after_sale "" [] (shop_with done_order) held_shop 61
      refl refl create_refund_runs

claim_coupon-IsIssued_example : Holds (IsIssued 41 shop) (claim_coupon clock 6 41 2 shop)
claim_coupon-IsIssued_example = claim_coupon-IsIssued clock 6 41 2 shop (omega arith)

claim_coupon_runs :
    (db_of (claim_coupon clock 6 41 2 shop)).coupons
    ≡ record coupon { claimed = 2; issued = 2 } ∷ []
unfolding claim_coupon marketing_enabled
claim_coupon_runs = refl

grant_coupon_inner-IsIssued_example :
    Holds (IsIssued 41 shop) (grant_coupon_inner clock false 6 41 shop)
grant_coupon_inner-IsIssued_example =
    grant_coupon_inner-IsIssued clock false 6 41 shop (omega arith)

abbrev signup_shop : Db
signup_shop = record shop {
  coupons = record coupon { trigger = CouponTrigger.signup } ∷ [];
  user_coupons = record held { status = UserCouponStatus.used } ∷ [];
}

grant_signup_once_example :
    grant_coupon_inner clock false 5 41 signup_shop ≡ ok (existing 51) signup_shop
grant_signup_once_example =
    grant_signup_once clock 5 41 (record coupon { trigger = CouponTrigger.signup })
      (record held { status = UserCouponStatus.used }) signup_shop refl refl refl

claim_coupon_limit_example :
    Holds (λ d. count_where (is_holding 6 41) d.user_coupons ≤ 1) (claim_coupon clock 6 41 2 shop)
claim_coupon_limit_example = claim_coupon_limit clock 6 41 2 0 coupon shop refl refl (omega arith)

abbrev prizes : List ℕ
prizes = 5 ∷ 0 ∷ 10 ∷ []

pick_prize-Lands_example :
    (k : ℕ) × (pick_prize prizes 7 ≡ some k)
    × (weight_before prizes k ≤ 7)
    × (7 < weight_before prizes k + weight_at prizes k)
pick_prize-Lands_example = pick_prize-Lands prizes 7 (omega arith)

pick_prize_third : pick_prize prizes 7 ≡ some 2
unfolding pick_prize
pick_prize_third = refl
