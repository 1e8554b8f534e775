-- ===== src/Business/Cart.antt =====
-- src/business/business.service.ts: the cart, `cartData`, `setCartItem`, `updateCart` and `clearCart`. The
-- pictures of a response are left out. A row of the cart whose product is gone cannot be, by the foreign key,
-- and is passed over.
pub mod Rows
pub mod Laws
use Prim.Native.String.{String}
use buchuqin_api.Prelude.{
  ℕ, zero, suc, ◌+◌, ◌*◌, Bool, true, false, List, [], ◌∷◌, ◌++◌, Option, none, some, ◌==◌, ◌||◌,
  ◌&&◌, not, leb, ltb, if◌then◌else◌, is_some, map, keep, length,
}
use buchuqin_api.Store.{
  Db, Tx, ◌>>=◌, ◌>>◌, pure, read, write, require, expect, when, Failure, bad_request, not_found,
  conflict,
}
use buchuqin_api.Store.Table.{find_first, count_where, update_many, delete_many}
use buchuqin_api.Store.Rows.{Clock, Campus, User, Product, OrderLine, CartItem}
use buchuqin_api.Tenancy.{find_campus}
use buchuqin_api.Business.Cost.{find_product}
use buchuqin_api.Business.Limits.{assert_purchase_limit}
use buchuqin_api.Business.Opening.{throw_if_campus_closed}
use buchuqin_api.Business.Prices.{active_seckill, line_price}
use buchuqin_api.Business.Pay.{clear_cart}

-- A line of the cart with the price that it has now, and its identity.
pub record CartLine : Type 0 where
  pub line : OrderLine
  pub as_seckill : Bool

pub record Cart : Type 0 where
  pub items : List CartLine
  pub product_amount : ℕ
  pub total_quantity : ℕ
  pub delivery_threshold : ℕ

abbrev pub find_user : ℕ → Db → Option User
find_user id db = find_first (λ (u : User). u.id == id) db.users

-- The snapshot of a line; the costs come with the payment.
abbrev pub new_line : ℕ → CartItem → Product → OrderLine
new_line price i p = record {
  product_id = p.id;
  price = price;
  quantity = i.quantity;
  unit_gross_cost = none;
  cost_source = none;
  unit_wholesale_cost = none;
  unit_purchase_cost = none;
  units_per_case = some p.units_per_case;
}

-- `where: { userId, quantity: { gt: 0 } }`
abbrev pub is_cart_row : ℕ → CartItem → Bool
is_cart_row user_id i = (i.user_id == user_id) && leb 1 i.quantity

unfoldable pub cart_lines : ℕ → Db → List CartItem → List CartLine
unfolding line_price
cart_lines now db [] = []
cart_lines now db (i ∷ is) =
    let rest = cart_lines now db is in
    elim (find_product i.product_id db) [
      | none ↦ rest
      | some p ↦
          record {
            line = new_line (line_price now i.as_seckill p db.promotions) i p;
            as_seckill = i.as_seckill;
          }
          ∷ rest
    ]

-- The sums of the cart.
unfoldable pub cart_amount : List CartLine → ℕ
cart_amount [] = 0
cart_amount (l ∷ ls) = l.line.price * l.line.quantity + cart_amount ls

unfoldable pub cart_quantity : List CartLine → ℕ
cart_quantity [] = 0
cart_quantity (l ∷ ls) = l.line.quantity + cart_quantity ls

-- `DELIVERY_THRESHOLD_CENTS`, where the user or the campus is unknown.
unfoldable pub threshold_for : Option Campus → ℕ
threshold_for none = 1000
threshold_for (some c) = c.delivery_threshold

abbrev pub campus_of : Option User → Db → Option Campus
campus_of none db = none
campus_of (some u) db = find_campus u.campus_id db

-- `cartData`
unfoldable pub cart_data : ℕ → ℕ → Db → Cart
unfolding cart_lines cart_amount cart_quantity threshold_for
cart_data now user_id db =
    let items = cart_lines now db (keep (is_cart_row user_id) db.cart_items) in
    record {
      items = items;
      product_amount = cart_amount items;
      total_quantity = cart_quantity items;
      delivery_threshold = threshold_for (campus_of (find_user user_id db) db);
    }

abbrev pub is_row_of : ℕ → ℕ → CartItem → Bool
is_row_of user_id product_id i = (i.user_id == user_id) && (i.product_id == product_id)

-- The rows from a seckill that a person has of other products.
abbrev pub is_other_seckill : ℕ → ℕ → CartItem → Bool
is_other_seckill user_id product_id i =
    (i.user_id == user_id) && leb 1 i.quantity && i.as_seckill && not (i.product_id == product_id)

abbrev pub same_flag : Bool → Bool → Bool
same_flag true b = b
same_flag false b = not b

abbrev pub is_same_identity : Bool → Option CartItem → Bool
is_same_identity as_seckill none = true
is_same_identity as_seckill (some i) = same_flag i.as_seckill as_seckill

abbrev pub identity_failure : Bool → Failure
identity_failure true = bad_request "该商品已在购物车（原价购买），如需秒杀价请先移除再加购"
identity_failure false = bad_request "已按秒杀价加购，每人限购 1 件"

abbrev pub old_quantity : Option CartItem → ℕ
old_quantity none = 0
old_quantity (some i) = i.quantity

-- `quantity > old && quantity > p.stock - p.lockedStock`, negated; the subtraction may go below zero there.
abbrev pub has_stock : ℕ → ℕ → Product → Bool
has_stock quantity old p = leb quantity old || leb (quantity + p.locked_stock) p.stock

abbrev pub set_item : ℕ → Bool → CartItem → CartItem
set_item quantity as_seckill i = record i { quantity = quantity; as_seckill = as_seckill }

-- `upsert`
unfoldable pub put_item : ℕ → ℕ → ℕ → Bool → List CartItem → List CartItem
put_item user_id product_id quantity as_seckill rows =
    if count_where (is_row_of user_id product_id) rows == 0
    then rows
      ++ (record {
        user_id = user_id;
        product_id = product_id;
        quantity = quantity;
        as_seckill = as_seckill;
      }
          ∷ [])
    else update_many (is_row_of user_id product_id) (set_item quantity as_seckill) rows

-- The checks of a line from a seckill.
unfoldable pub check_seckill : ℕ → ℕ → ℕ → ℕ → Tx (Unit {0})
unfolding active_seckill
check_seckill now user_id product_id quantity = do
  running ← read (λ db. is_some (active_seckill now product_id db.promotions))
  require running (bad_request "秒杀活动未开始或已结束")
  require (leb quantity 1) (bad_request "秒杀商品每单限购 1 件")
  others ← read (λ db. count_where (is_other_seckill user_id product_id) db.cart_items)
  require (others == 0) (bad_request "购物车已有秒杀商品，一个订单限一个")

-- The write at the end of `setCartItem`.
unfoldable pub save_item : ℕ → ℕ → ℕ → Bool → Tx (Unit {0})
unfolding put_item
save_item user_id product_id zero as_seckill =
    write λ db. record db { cart_items = delete_many (is_row_of user_id product_id) db.cart_items }
save_item user_id product_id (suc n) as_seckill =
    write
      λ db. record db { cart_items = put_item user_id product_id (suc n) as_seckill db.cart_items }

-- `setCartItem` behind the read of the product.
unfoldable pub set_read : Clock → ℕ → Product → ℕ → Bool → Tx (Unit {0})
unfolding throw_if_campus_closed assert_purchase_limit check_seckill save_item
set_read clock user_id p quantity as_seckill = do
  when (leb 1 quantity) (throw_if_campus_closed clock p.campus_id)
  existing ← read (λ db. find_first (is_row_of user_id p.id) db.cart_items)
  when (leb 1 quantity) (assert_purchase_limit clock user_id (p.id ∷ []))
  require (not (leb 1 quantity) || is_same_identity as_seckill existing)
      (identity_failure as_seckill)
  when (leb 1 quantity && as_seckill) (check_seckill clock.now user_id p.id quantity)
  require (has_stock quantity (old_quantity existing) p) (bad_request "库存不足")
  save_item user_id p.id quantity as_seckill

-- `setCartItem`
unfoldable pub set_cart_item : Clock → ℕ → ℕ → ℕ → Bool → Tx (Unit {0})
unfolding set_read
set_cart_item clock user_id product_id quantity as_seckill = do
  found ← read (find_product product_id)
  p ← expect found (not_found "商品不存在")
  set_read clock user_id p quantity as_seckill

-- A line of `updateCart`, and of its result.
pub record CartEntry : Type 0 where
  pub product_id : ℕ
  pub quantity : ℕ
  pub as_seckill : Bool

abbrev pub is_seckill_entry : CartEntry → Bool
is_seckill_entry e = leb 1 e.quantity && e.as_seckill

-- `seckillIds.has(productId)`: a line from a seckill has the product, and its seckill runs.
abbrev pub has_seckill : ℕ → List CartEntry → ℕ → Db → Bool
has_seckill now entries product_id db =
    leb 1 (count_where (λ e. is_seckill_entry e && (e.product_id == product_id)) entries)
    && is_some (active_seckill now product_id db.promotions)

abbrev pub new_item : ℕ → CartEntry → CartItem
new_item user_id e = record {
  user_id = user_id;
  product_id = e.product_id;
  quantity = e.quantity;
  as_seckill = e.as_seckill;
}

-- The checks of a line whose product is on sale.
unfoldable pub check_entry : ℕ → ℕ → List CartEntry → CartEntry → Product → Tx (Unit {0})
unfolding active_seckill
check_entry now user_id entries e p = do
  seckill ← read (has_seckill now entries e.product_id)
  require (not e.as_seckill || seckill) (bad_request "秒杀活动未开始或已结束")
  require (not seckill || leb e.quantity 1) (bad_request "秒杀商品每单限购 1 件")
  old ← read (λ db. old_quantity (find_first (is_row_of user_id e.product_id) db.cart_items))
  require (has_stock e.quantity old p) (bad_request "库存不足")

-- A product that is on sale.
abbrev pub on_sale_product : ℕ → Db → Option Product
on_sale_product id db = find_first (λ (p : Product). (p.id == id) && p.on_sale) db.products

abbrev pub saved_rows : ℕ → CartEntry → Option Product → List CartItem → List CartItem
saved_rows user_id e none rest = rest
saved_rows user_id e (some p) rest = new_item user_id e ∷ rest

unfoldable pub check_found : ℕ → ℕ → List CartEntry → CartEntry → Option Product → Tx (Unit {0})
unfolding check_entry
check_found now user_id entries e none = pure tt
check_found now user_id entries e (some p) = check_entry now user_id entries e p

-- The loop of `updateCart`: a line without a quantity, or whose product is not on sale, is dropped.
unfoldable pub new_rows : ℕ → ℕ → List CartEntry → List CartEntry → Tx (List CartItem)
unfolding check_found
new_rows now user_id entries [] = pure []
new_rows now user_id entries (e ∷ es) = do
  found ← read (λ db. if e.quantity == 0 then none else on_sale_product e.product_id db)
  check_found now user_id entries e found
  rest ← new_rows now user_id entries es
  pure (saved_rows user_id e found rest)

-- The unique key of the table, on the rows of one person.
unfoldable pub are_distinct : List CartItem → Bool
are_distinct [] = true
are_distinct (i ∷ is) =
    (count_where (λ (j : CartItem). j.product_id == i.product_id) is == 0) && are_distinct is

-- The transaction of `updateCart`.
unfoldable pub replace_cart : Clock → ℕ → List CartEntry → Tx (Unit {0})
unfolding assert_purchase_limit new_rows are_distinct
replace_cart clock user_id entries = do
  assert_purchase_limit clock user_id
      (map (λ (e : CartEntry). e.product_id) (keep (λ e. leb 1 e.quantity) entries))
  require (leb (count_where is_seckill_entry entries) 1) (bad_request "一个订单限一个秒杀商品")
  rows ← new_rows clock.now user_id entries entries
  require (are_distinct rows) (conflict "Unique constraint failed")
  write λ db. record db { cart_items = (clear_cart user_id db).cart_items ++ rows }

unfoldable pub closed_for : Clock → Option User → Tx (Unit {0})
unfolding throw_if_campus_closed
closed_for clock none = pure tt
closed_for clock (some u) = throw_if_campus_closed clock u.campus_id

-- `updateCart`
unfoldable pub update_cart : Clock → ℕ → List CartEntry → Tx (Unit {0})
unfolding closed_for replace_cart
update_cart clock user_id entries = do
  owner ← read (find_user user_id)
  closed_for clock owner
  replace_cart clock user_id entries
