-- ===== src/Business/Cart/Laws.antt =====
-- A cart has at most one line from a seckill.

use buchuqin_api.Prelude.{
  ℕ, zero, suc, ◌≤◌, ◌≡◌, refl, Bool, true, false, List, [], ◌∷◌, ◌++◌, Option, none, some, ◌==◌,
  ◌||◌, ◌&&◌, not, leb, arith, map, keep, leb→le, is_some,
}
use buchuqin_api.Store.{
  Db, Tx, ◌>>=◌, ◌>>◌, Failure, read, require, when, bad_request, conflict, not_found, write,
}
use buchuqin_api.Store.Holds.{Holds, Holds-require, Holds-expect}
use buchuqin_api.Store.Yields.{
  Yields, IsReading, Yields-require, Yields-bind, Yields-after, Yields-Holds, when-IsReading,
  Yields-require_last, Holds-Yields,
}
use buchuqin_api.Store.Table.{count_where, find_first, count_where-append, count_where-delete}
use buchuqin_api.Store.Rows.{Clock, CartItem, Product, User}
use buchuqin_api.Business.Limits.{assert_purchase_limit, within_limits}
use buchuqin_api.Business.Opening.{throw_if_campus_closed}
use buchuqin_api.Business.Pay.{clear_cart}
use buchuqin_api.Business.Prices.{active_seckill}
use buchuqin_api.Business.Checkout.Quote.{
  throw_if_campus_closed-IsReading, assert_purchase_limit-IsReading,
}
use buchuqin_api.Business.Cost.{find_product}
use buchuqin_api.Business.Cart.{
  is_row_of, is_other_seckill, is_same_identity, identity_failure, old_quantity, has_stock,
  save_item, check_seckill, set_read, set_cart_item, CartEntry, is_seckill_entry, new_rows,
  are_distinct, replace_cart, update_cart, closed_for, find_user,
}
use buchuqin_api.Business.Cart.Rows.{
  is_seckill_row, seckill_rows, clear_cart_rows, Fewer, new_rows-Fewer, put_item-IsSingle,
}

assert_limit-Holds :
    (Q : Db → Type 0) (clock : Clock) (u : ℕ) (ids : List ℕ) (k : Tx (Unit {0})) (db : Db)
    → Holds Q (k db)
    → Holds Q ((assert_purchase_limit clock u ids >> k) db)
unfolding assert_purchase_limit
assert_limit-Holds Q clock u ids k db h =
    Holds-require Q (within_limits clock u ids db.orders db.products) (bad_request "已达限购") k db
      λ _. h

replace_cart-IsSingle :
    (clock : Clock) (user_id : ℕ) (entries : List CartEntry) (db : Db)
    → Holds (λ d. seckill_rows user_id d ≤ 1) (replace_cart clock user_id entries db)
unfolding replace_cart
replace_cart-IsSingle clock user_id entries db =
    let Q = λ (d : Db). seckill_rows user_id d ≤ 1 in
    let few = leb (count_where is_seckill_entry entries) 1 in
    let twice : Failure = conflict "Unique constraint failed" in
    let many : Failure = bad_request "一个订单限一个秒杀商品" in
    let last = λ (rows : List CartItem).
      require (are_distinct rows) twice
      >> write (λ d. record d { cart_items = (clear_cart user_id d).cart_items ++ rows }) in
    let rest : Tx (Unit {0}) =
      require few many >> (new_rows clock.now user_id entries entries >>= last) in
    assert_limit-Holds Q clock user_id
      (map (λ (e : CartEntry). e.product_id) (keep (λ e. leb 1 e.quantity) entries)) rest db
      (Holds-require Q few many (new_rows clock.now user_id entries entries >>= last) db λ one.
        Yields-Holds Q ((new_rows clock.now user_id entries entries >>= last) db) (
          Yields-bind (Fewer user_id entries) (λ _ d. Q d)
            (new_rows clock.now user_id entries entries) last db
            (new_rows-Fewer clock.now user_id entries entries db)
            λ rows d h.
              Yields-require (λ _ d. Q d) (are_distinct rows) twice
                (write (λ x. record x { cart_items = (clear_cart user_id x).cart_items ++ rows })) d
                λ _.
                  let bound = leb→le (count_where is_seckill_entry entries) 1 one in
                  rw
                    (
                      count_where-append (is_seckill_row user_id) (clear_cart user_id d).cart_items
                          rows,
                      clear_cart_rows user_id d.cart_items,
                    )
                    (omega arith)))

-- The key of the table: a person has at most one row of a product.
abbrev pub IsKeyed : ℕ → Db → Type 0
IsKeyed user_id db = (product_id : ℕ) → count_where (is_row_of user_id product_id) db.cart_items ≤ 1

module _ (clock : Clock) (user_id : ℕ) (db : Db) where
  abbrev IsSingle : Db → Type 0
  IsSingle d = seckill_rows user_id d ≤ 1

  -- The checks of a line from a seckill passed.
  abbrev Checked : ℕ → Bool → Unit {0} → Db → Type 0
  Checked id b x d =
      (d ≡ db) × (b ≡ true → count_where (is_other_seckill user_id id) db.cart_items ≡ 0)

  check_seckill-Checked :
      (id n : ℕ) → Yields (Checked id true) (check_seckill clock.now user_id id n db)
  unfolding check_seckill
  check_seckill-Checked id n =
      let running = is_some (active_seckill clock.now id db.promotions) in
      let others = count_where (is_other_seckill user_id id) db.cart_items in
      let many : Failure = bad_request "秒杀商品每单限购 1 件" in
      let other : Failure = bad_request "购物车已有秒杀商品，一个订单限一个" in
      let last = read (λ d. count_where (is_other_seckill user_id id) d.cart_items) >>= λ c.
      require (c == 0) other in
      Yields-require (Checked id true) running (bad_request "秒杀活动未开始或已结束")
        (require (leb n 1) many >> last) db
        λ _. Yields-require (Checked id true) (leb n 1) many last db λ _.
          Yields-require_last (Checked id true) (others == 0) other db
            λ h. (refl, λ _. ground arith)

  check_when :
      (b : Bool) (id n : ℕ)
      → Yields (Checked id b) (when b (check_seckill clock.now user_id id n) db)
  check_when true id n = check_seckill-Checked id n
  check_when false id n = (refl, λ e. cc)

  save_item-IsSingle :
      (id n : ℕ) (s : Bool)
      → IsSingle db
      → IsKeyed user_id db
      → (leb 1 n && s ≡ true → count_where (is_other_seckill user_id id) db.cart_items ≡ 0)
      → Holds IsSingle (save_item user_id id n s db)
  unfolding save_item
  save_item-IsSingle id zero s few key others =
      let fewer =
        count_where-delete (is_seckill_row user_id) (is_row_of user_id id) db.cart_items in
      omega (arith, fewer)
  save_item-IsSingle id (suc n) s few key others =
      put_item-IsSingle user_id id n s db.cart_items few (key id) λ e. others (rw e (ground arith))

  set_read-IsSingle :
      (p : Product) (n : ℕ) (s : Bool)
      → IsSingle db
      → IsKeyed user_id db
      → Holds IsSingle (set_read clock user_id p n s db)
  unfolding set_read
  set_read-IsSingle p n s few key =
      let Q = λ (x : Unit {0}) (d : Db). IsSingle d in
      let adds = leb 1 n in
      let existing = find_first (is_row_of user_id p.id) db.cart_items in
      let same = λ (i : Option CartItem). not adds || is_same_identity s i in
      let short : Failure = bad_request "库存不足" in
      let save = λ (i : Option CartItem).
        require (has_stock n (old_quantity i) p) short >> save_item user_id p.id n s in
      let check = λ (i : Option CartItem).
        when (adds && s) (check_seckill clock.now user_id p.id n) >> save i in
      let identity = λ (i : Option CartItem). require (same i) (identity_failure s) >> check i in
      let limit = λ (i : Option CartItem).
        when adds (assert_purchase_limit clock user_id (p.id ∷ [])) >> identity i in
      Yields-Holds IsSingle (set_read clock user_id p n s db) (
        Yields-after Q (when adds (throw_if_campus_closed clock p.campus_id))
          (λ _. read (λ d. find_first (is_row_of user_id p.id) d.cart_items) >>= limit) db
          (when-IsReading adds (throw_if_campus_closed clock p.campus_id) db
            (throw_if_campus_closed-IsReading clock p.campus_id db))
          λ _.
            Yields-after Q (when adds (assert_purchase_limit clock user_id (p.id ∷ [])))
              (λ _. identity existing) db
              (when-IsReading adds (assert_purchase_limit clock user_id (p.id ∷ [])) db
                (assert_purchase_limit-IsReading clock user_id (p.id ∷ []) db))
              λ _. Yields-require Q (same existing) (identity_failure s) (check existing) db λ _.
                Yields-bind (Checked p.id (adds && s)) Q
                  (when (adds && s) (check_seckill clock.now user_id p.id n)) (λ _. save existing)
                  db (check_when (adds && s) p.id n)
                  λ _ d (e, others). rw e (
                    Yields-require Q (has_stock n (old_quantity existing) p) short
                      (save_item user_id p.id n s) db
                      λ _.
                        Holds-Yields IsSingle (save_item user_id p.id n s db)
                          (save_item-IsSingle p.id n s few key others)))

  closed_for-IsReading : (owner : Option User) → IsReading db (closed_for clock owner db)
  unfolding closed_for
  closed_for-IsReading none = refl
  closed_for-IsReading (some u) = throw_if_campus_closed-IsReading clock u.campus_id db

-- A cart has at most one line from a seckill: replacing the cart leaves at most one, whatever it had, and so
-- does setting one line, where there was at most one before and each product has at most one row.
pub cart-IsSingle :
    (clock : Clock) (user_id id n : ℕ) (s : Bool) (entries : List CartEntry) (db : Db)
    → IsKeyed user_id db
    → seckill_rows user_id db ≤ 1
    → Holds (λ d. seckill_rows user_id d ≤ 1) (update_cart clock user_id entries db)
      × Holds (λ d. seckill_rows user_id d ≤ 1) (set_cart_item clock user_id id n s db)
unfolding update_cart set_cart_item
cart-IsSingle clock user_id id n s entries db key few =
    let Q = λ (d : Db). seckill_rows user_id d ≤ 1 in
    (
      Yields-Holds Q (update_cart clock user_id entries db) (
          Yields-after (λ _ d. Q d) (closed_for clock (find_user user_id db))
            (λ _. replace_cart clock user_id entries) db
            (closed_for-IsReading clock user_id db (find_user user_id db))
            λ _.
              Holds-Yields Q (replace_cart clock user_id entries db)
                (replace_cart-IsSingle clock user_id entries db)),
      Holds-expect Q (find_product id db) (not_found "商品不存在") (λ p. set_read clock user_id p n s) db
          λ p _. set_read-IsSingle clock user_id db p n s few key,
    )
