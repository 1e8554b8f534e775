-- ===== src/Tests/Shopping.antt =====
-- From the cart to an order on the small shop.
use buchuqin_api.Prelude.{ℕ, ◌≤◌, ◌≡◌, refl, true, false, List, [], ◌∷◌, none, some, arith}
use buchuqin_api.Store.{Db, Outcome, ok, thrown}
use buchuqin_api.Store.Holds.{Holds, IsThrown}
use buchuqin_api.Store.Table.{count_where}
use buchuqin_api.Store.Rows.{
  CartItem, Promotion, PromotionKind, UserCoupon, UserCouponStatus, instant,
}
use buchuqin_api.Business.Prices.{active_seckill, normal_promotion, line_price}
use buchuqin_api.Business.Prices.Laws.{IsChosen, promotions-IsFirst}
use buchuqin_api.Business.Cart.{CartEntry, cart_data, update_cart, set_cart_item, is_row_of}
use buchuqin_api.Business.Cart.Rows.{seckill_rows}
use buchuqin_api.Business.Cart.Laws.{cart-IsSingle}
use buchuqin_api.Business.Checkout.{CreateOrder, Settlement, create_order, place_order}
use buchuqin_api.Business.Checkout.Laws.{HasNew, create_order-IsPriced, place_order_once}
use buchuqin_api.Tests.Sample.{shop, clock, product, address, held}

-- Two promotions of the product: the one that ends first is a seckill.
abbrev seckill : Promotion
seckill = record {
  product_id = 21;
  kind = PromotionKind.seckill;
  price = 300;
  active = true;
  starts_at = 0;
  ends_at = 2000;
  created_at = 0;
}

abbrev clearance : Promotion
clearance = record seckill { kind = PromotionKind.clearance; price = 450; ends_at = 3000 }

abbrev promotions : List Promotion
promotions = record clearance { ends_at = 4000 } ∷ seckill ∷ clearance ∷ []

promotions-IsFirst_example :
    IsChosen 1000 21 true promotions (active_seckill 1000 21 promotions)
    × IsChosen 1000 21 false promotions (normal_promotion 1000 21 promotions)
promotions-IsFirst_example = promotions-IsFirst 1000 21 promotions

price_lem : line_price 1000 true product promotions ≡ 300
unfolding line_price
price_lem = refl

-- The shop with a cart of five units, and a coupon that can be used.
abbrev in_cart : CartItem
in_cart = record { user_id = 5; product_id = 21; quantity = 5; as_seckill = false }

abbrev free : UserCoupon
free = record held { status = UserCouponStatus.claimed }

abbrev cart_shop : Db
cart_shop = record shop {
  users = record { id = 5; campus_id = 2 } ∷ [];
  addresses = address ∷ [];
  cart_items = in_cart ∷ [];
  promotions = promotions;
  user_coupons = free ∷ [];
}

abbrev request : CreateOrder
request = record {
  address_id = 3;
  delivery_mode = instant;
  delivery_slot = none;
  coupon_id = some 51;
}

create_order-IsPriced_example :
    Holds (HasNew 5 cart_shop) (create_order clock 5 2 request cart_shop)
create_order-IsPriced_example = create_order-IsPriced clock 5 2 request cart_shop

abbrev db_of {ℓ} : {A : Type ℓ} → Outcome A → Db
db_of (ok a db) = db
db_of (thrown e) = shop

abbrev settlement : Settlement
settlement = record {
  cart = cart_data 1000 5 cart_shop;
  delivery_fee = 200;
  discount = 100;
  payable_amount = 2350;
}

abbrev ordered_shop : Db
ordered_shop = db_of (place_order 1000 5 request address settlement cart_shop)

place_order_runs : place_order 1000 5 request address settlement cart_shop ≡ ok 61 ordered_shop
unfolding place_order
place_order_runs = refl

create_order_runs : create_order clock 5 2 request cart_shop ≡ ok 61 ordered_shop
unfolding create_order place_order cart_data
create_order_runs = refl

place_order_once_example : IsThrown (place_order 1001 5 request address settlement ordered_shop)
place_order_once_example =
    place_order_once 1000 1001 5 51 61 request request address address settlement settlement
      cart_shop ordered_shop refl refl place_order_runs

one_row : (id : ℕ) → count_where (is_row_of 5 id) (in_cart ∷ []) ≤ 1
one_row id = ground arith

abbrev entry : CartEntry
entry = record { product_id = 21; quantity = 1; as_seckill = true }

cart-IsSingle_example :
    Holds (λ d. seckill_rows 5 d ≤ 1) (update_cart clock 5 (entry ∷ []) cart_shop)
    × Holds (λ d. seckill_rows 5 d ≤ 1) (set_cart_item clock 5 21 6 false cart_shop)
cart-IsSingle_example =
    cart-IsSingle clock 5 21 6 false (entry ∷ []) cart_shop one_row (omega arith)
