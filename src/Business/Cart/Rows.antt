-- ===== src/Business/Cart/Rows.antt =====
-- The lines from a seckill in a cart, and in the rows that replace one.
use buchuqin_api.Prelude.{
  ℕ, suc, ◌+◌, ◌≤◌, ◌≡◌, refl, Bool, true, false, List, [], ◌∷◌, Option, none, some, ◌==◌, ◌&&◌,
  leb, arith, if◌then◌else◌, Bool-cases, inl, inr,
}
use buchuqin_api.Store.{Db, ◌>>=◌, pure}
use buchuqin_api.Store.Yields.{Yields, Yields-bind, Yields-top}
use buchuqin_api.Store.Table.{
  count_where, delete_many, update_many, count_where-append, update_many_none,
}
use buchuqin_api.Store.Rows.{CartItem, Product}
use buchuqin_api.Business.Cart.{
  is_row_of, is_other_seckill, put_item, set_item, CartEntry, is_seckill_entry, new_rows,
  saved_rows, on_sale_product, check_found,
}

-- The lines from a seckill that a person has in the cart.
abbrev pub is_seckill_row : ℕ → CartItem → Bool
is_seckill_row user_id i = (i.user_id == user_id) && leb 1 i.quantity && i.as_seckill

abbrev pub seckill_rows : ℕ → Db → ℕ
seckill_rows user_id db = count_where (is_seckill_row user_id) db.cart_items

pub clear_cart_rows :
    (user_id : ℕ) (is : List CartItem)
    → count_where (is_seckill_row user_id) (delete_many (λ (i : CartItem). i.user_id == user_id) is)
      ≡ 0
clear_cart_rows user_id [] = refl
clear_cart_rows user_id (i ∷ is) = ground (arith, clear_cart_rows user_id is)

-- The new rows have no more lines from a seckill than the request.
abbrev pub Fewer : ℕ → List CartEntry → List CartItem → Db → Type 0
Fewer user_id es rows d =
    count_where (is_seckill_row user_id) rows ≤ count_where is_seckill_entry es

saved_rows_fewer :
    (user_id : ℕ) (e : CartEntry) (es : List CartEntry) (found : Option Product)
    (rows : List CartItem)
    → count_where (is_seckill_row user_id) rows ≤ count_where is_seckill_entry es
    → count_where (is_seckill_row user_id) (saved_rows user_id e found rows)
      ≤ count_where is_seckill_entry (e ∷ es)
saved_rows_fewer user_id e es none rows h = ground arith
saved_rows_fewer user_id e es (some p) rows h = ground arith

pub new_rows-Fewer :
    (now user_id : ℕ) (entries es : List CartEntry) (db : Db)
    → Yields (Fewer user_id es) (new_rows now user_id entries es db)
unfolding new_rows
new_rows-Fewer now user_id entries [] db = omega arith
new_rows-Fewer now user_id entries (e ∷ es) db =
    let found = if e.quantity == 0 then none else on_sale_product e.product_id db in
    let rest = new_rows now user_id entries es >>= λ rows. pure (saved_rows user_id e found rows) in
    Yields-bind (λ _ _. Unit) (Fewer user_id (e ∷ es)) (check_found now user_id entries e found)
      (λ _. rest) db (Yields-top (check_found now user_id entries e found db))
      λ _ d _.
        Yields-bind (Fewer user_id es) (Fewer user_id (e ∷ es)) (new_rows now user_id entries es)
          (λ rows. pure (saved_rows user_id e found rows)) d
          (new_rows-Fewer now user_id entries es d)
          λ rows x h. saved_rows_fewer user_id e es found rows h

module _ (user_id product_id : ℕ) where
  -- The rows from a seckill, those of the product set apart.
  seckill_apart :
      (is : List CartItem)
      → count_where (is_row_of user_id product_id) is ≡ 0
      → count_where (is_seckill_row user_id) is
        ≤ count_where (is_other_seckill user_id product_id) is
  seckill_apart [] h = omega arith
  seckill_apart (i ∷ is) h = ground (arith, seckill_apart is)

  seckill_set :
      (q : ℕ) (is : List CartItem)
      → count_where (is_row_of user_id product_id) is ≤ 1
      → count_where
          (is_seckill_row user_id)
          (update_many (is_row_of user_id product_id) (set_item q true) is)
        ≤ count_where (is_other_seckill user_id product_id) is + 1
  seckill_set q [] h = omega arith
  seckill_set q (i ∷ is) h = ground (
    arith,
    seckill_set q is,
    seckill_apart is,
    update_many_none (is_row_of user_id product_id) (set_item q true) is,
  )

  seckill_unset :
      (q : ℕ) (is : List CartItem)
      → count_where
          (is_seckill_row user_id)
          (update_many (is_row_of user_id product_id) (set_item q false) is)
        ≤ count_where (is_seckill_row user_id) is
  seckill_unset q [] = omega arith
  seckill_unset q (i ∷ is) = ground (arith, seckill_unset q is)

  pub put_item-IsSingle :
      (n : ℕ) (s : Bool) (is : List CartItem)
      → count_where (is_seckill_row user_id) is ≤ 1
      → count_where (is_row_of user_id product_id) is ≤ 1
      → (s ≡ true → count_where (is_other_seckill user_id product_id) is ≡ 0)
      → count_where (is_seckill_row user_id) (put_item user_id product_id (suc n) s is) ≤ 1
  unfolding put_item
  put_item-IsSingle n s is few key others =
      elim (Bool-cases (count_where (is_row_of user_id product_id) is == 0)) [
        | inl e ↦
            let apart = seckill_apart is (ground arith) in
            let sum = count_where-append (is_seckill_row user_id) is (
              record {
                user_id = user_id;
                product_id = product_id;
                quantity = suc n;
                as_seckill = s;
              }
              ∷ []) in
            rw (e, sum)
              (elim (Bool-cases s) [
                | inl t ↦ let none_ = others t in ground arith
                | inr f ↦ rw f (ground arith)
              ])
        | inr e ↦ rw e (elim (Bool-cases s) [
          | inl t ↦ let none_ = others t in rw t (omega (arith, seckill_set (suc n) is key))
          | inr f ↦ rw f (omega (arith, seckill_unset (suc n) is))
        ])
      ]
