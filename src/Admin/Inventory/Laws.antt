-- ===== src/Admin/Inventory/Laws.antt =====
-- The stock of each product is what the ledger says, whatever the back office does to it by hand.

use buchuqin_api.Prelude.{
  ℕ, ◌+◌, ◌≡◌, refl, Bool, true, List, [], ◌∷◌, some, ◌==◌, ◌||◌, not, arith, ℤ, pos, negsuc, ltb_ℤ,
  sub_ℕ, pos_part, neg_part,
}
use buchuqin_api.Store.{
  Db, Tx, transaction, ok, ◌>>=◌, ◌>>◌, write, require, Failure, bad_request, not_found,
}
use buchuqin_api.Store.Sums.{find_first-widen, sum_where-single, sum_where-update_gain}
use buchuqin_api.Store.Holds.{
  Holds, Holds-require_last, Holds-require, Holds-expect, Holds-when, Holds-transaction,
}
use buchuqin_api.Store.Table.{
  find_first, count_where, update_many, find_first-sat, find_first-update, count_where-update,
}
use buchuqin_api.Store.Rows.{Product, TxnKind}
use buchuqin_api.Admin.Inventory.{
  has_product_id, is_product_of, is_local, is_stockable, add_stock, set_stock, log_txn, stock_in,
  adjust_tx, adjust_stock, stocktake_tx, stocktake_read, stocktake, shifted, is_zero, read_product,
}
use buchuqin_api.Admin.Inventory.Ledger.{
  stock_of, IsUnique, IsBalanced, IsBalanced-refl, IsBalanced-trans, moved, moved-IsBalanced,
}

stock_in-IsBalanced :
    (official : Bool) (campus id quantity : ℕ) (db : Db)
    → IsUnique db
    → Holds (IsBalanced db) (stock_in official campus id quantity db)
unfolding stock_in read_product log_txn
stock_in-IsBalanced official campus id quantity db u =
    let q = is_stockable official id in
    let g = add_stock (pos quantity) in
    let after = moved id TxnKind.stock_in (pos quantity) q g db in
    let count = count_where q db.products in
    let changed : Failure = bad_request "商品采购方式已变化，请刷新后重试" in
    let update : Tx (Unit {0}) =
      (λ d. ok (count_where q d.products) (record d { products = update_many q g d.products }))
      >>= λ n. require (n == 1) changed in
    Holds-expect (IsBalanced db) (find_first (is_product_of id campus) db.products)
      (not_found "商品不存在")
      (λ p.
        require (official || is_local p) (bad_request "只有本地采购商品可以手工采购入库")
        >> (log_txn id TxnKind.stock_in (pos quantity) >> update))
      db
      λ p _.
        Holds-require (IsBalanced db) (official || is_local p) (bad_request "只有本地采购商品可以手工采购入库")
          (log_txn id TxnKind.stock_in (pos quantity) >> update) db
          λ _. Holds-require_last (IsBalanced db) (count == 1) changed after λ one.
            moved-IsBalanced id TxnKind.stock_in (pos quantity) q g db (λ x. refl)
              (λ x h. ground arith)
              (let gain =
                  sum_where-update_gain (has_product_id id) (λ p. p.stock) q g quantity db.products
                    (λ x. refl) (λ x h. ground arith) (λ x. ground arith) (u id) (ground arith) in
                omega (arith, gain))
              u

module _ (id : ℕ) (db : Db) {row : Product}
    (found : find_first (has_product_id id) db.products ≡ some row) (u : IsUnique db) where
  -- The stock after an update of the one product of an identifier.
  stock_of-update :
      (g : Product → Product)
      → ((p : Product) → (g p).id ≡ p.id)
      → stock_of id (record db { products = update_many (has_product_id id) g db.products })
        ≡ (g row).stock
  stock_of-update g keeps =
      sum_where-single (has_product_id id) (λ p. p.stock)
        (update_many (has_product_id id) g db.products)
        (rw
          (count_where-update (has_product_id id) (has_product_id id) g db.products
            λ p _. rw (keeps p) refl)
          (u id))
        (find_first-update (has_product_id id) g db.products (λ p h. rw (keeps p) h) found)

  stock_of-row : stock_of id db ≡ row.stock
  stock_of-row = sum_where-single (has_product_id id) (λ p. p.stock) db.products (u id) found

shifted_parts :
    (n : ℕ) (delta : ℤ)
    → not (ltb_ℤ (shifted n delta) (pos 0)) ≡ true
    → pos_part (shifted n delta) + neg_part delta ≡ n + pos_part delta
shifted_parts n delta h = ground arith

adjust_stock-IsBalanced :
    (campus id : ℕ) (delta : ℤ) (db : Db)
    → IsUnique db
    → Holds (IsBalanced db) (adjust_stock campus id delta db)
unfolding adjust_stock adjust_tx read_product log_txn
adjust_stock-IsBalanced campus id delta db u =
    let Q = IsBalanced db in
    let negative : Failure = bad_request "调整后库存不能为负数" in
    let apply : Tx (Unit {0}) =
      log_txn id TxnKind.adjust delta
      >> write (λ d. record d {
        products = update_many (has_product_id id) (add_stock delta) d.products;
      }) in
    let fine = λ (c : Product). not (ltb_ℤ (shifted c.stock delta) (pos 0)) in
    Holds-require Q (not (is_zero delta)) (bad_request "调整数量不能为 0")
      (read_product id campus >>= λ _. adjust_tx id delta) db
      λ _.
        Holds-expect Q (find_first (is_product_of id campus) db.products) (not_found "商品不存在")
          (λ _. adjust_tx id delta) db
          λ _ _.
            Holds-expect Q (find_first (has_product_id id) db.products) (not_found "商品不存在")
              (λ c. require (fine c) negative >> apply) db
              λ c found. Holds-require Q (fine c) negative apply db λ ok_.
                moved-IsBalanced id TxnKind.adjust delta (has_product_id id) (add_stock delta) db
                  (λ x. refl) (λ x h. h)
                  (rw
                    (
                      stock_of-update id db found u (add_stock delta) (λ x. refl),
                      stock_of-row id db found u,
                    )
                    (shifted_parts c.stock delta ok_))
                  u

stocktake_tx-IsBalanced :
    (p : Product) (counted : ℕ) (db : Db)
    → IsUnique db
    → find_first (has_product_id p.id) db.products ≡ some p
    → IsBalanced db (
        moved p.id TxnKind.adjust
          (sub_ℕ counted p.stock)
          (has_product_id p.id)
          (set_stock counted)
          db)
stocktake_tx-IsBalanced p counted db u found =
    moved-IsBalanced p.id TxnKind.adjust (sub_ℕ counted p.stock) (has_product_id p.id)
      (set_stock counted) db (λ x. refl) (λ x h. h)
      (rw
        (
          stock_of-update p.id db found u (set_stock counted) (λ x. refl),
          stock_of-row p.id db found u,
        )
        (ground arith))
      u

stocktake_read-IsBalanced :
    (counted : ℤ) (p : Product) (db : Db)
    → IsUnique db
    → find_first (has_product_id p.id) db.products ≡ some p
    → Holds (IsBalanced db) (stocktake_read counted p db)
unfolding stocktake_read stocktake_tx log_txn
stocktake_read-IsBalanced (pos n) p db u found =
    Holds-when (IsBalanced db) (not (n == p.stock)) (stocktake_tx p n) db (IsBalanced-refl db u)
      (stocktake_tx-IsBalanced p n db u found)
stocktake_read-IsBalanced (negsuc n) p db u found = tt

stocktake-IsBalanced :
    (campus id : ℕ) (counted : ℤ) (db : Db)
    → IsUnique db
    → Holds (IsBalanced db) (stocktake campus id counted db)
unfolding stocktake read_product
stocktake-IsBalanced campus id counted db u =
    Holds-expect (IsBalanced db) (find_first (is_product_of id campus) db.products)
      (not_found "商品不存在") (stocktake_read counted) db
      λ p found. stocktake_read-IsBalanced counted p db u (
        find_first-widen (has_product_id p.id) (is_product_of id campus) db.products
          (λ y h.
            let k = find_first-sat (is_product_of id campus) db.products found in ground arith)
          (u p.id) found)

-- What the back office does to the stock by hand.
pub data Change : Type 0 where
  bring : Bool → ℕ → ℕ → ℕ → Change
  adjust : ℕ → ℕ → ℤ → Change
  count : ℕ → ℕ → ℤ → Change

abbrev pub change : Change → Tx (Unit {0})
change (bring official campus id quantity) = stock_in official campus id quantity
change (adjust campus id delta) = adjust_stock campus id delta
change (count campus id counted) = stocktake campus id counted

-- The database after changes, one after the other; one that throws leaves it as it was.
unfoldable pub run : List Change → Db → Db
unfolding transaction stock_in adjust_stock stocktake
run [] db = db
run (c ∷ cs) db = run cs (transaction (change c) db)

change-IsBalanced : (c : Change) (db : Db) → IsUnique db → Holds (IsBalanced db) (change c db)
change-IsBalanced (bring official campus id quantity) =
    stock_in-IsBalanced official campus id quantity
change-IsBalanced (adjust campus id delta) = adjust_stock-IsBalanced campus id delta
change-IsBalanced (count campus id counted) = stocktake-IsBalanced campus id counted

-- After any sequence of purchases entered, corrections and stocktakings, refused ones included, the stock
-- of each product has changed as the ledger says: it is the stock at the beginning with what the new rows
-- say came and without what they say left. Every identifier of a product stands at most once, and does so
-- at the end.
pub run-IsBalanced : (cs : List Change) (db : Db) → IsUnique db → IsBalanced db (run cs db)
unfolding run
run-IsBalanced [] db u = IsBalanced-refl db u
run-IsBalanced (c ∷ cs) db u =
    let first =
      Holds-transaction (IsBalanced db) (change c) db (IsBalanced-refl db u)
        (change-IsBalanced c db u) in
    IsBalanced-trans db (transaction (change c) db) (run cs (transaction (change c) db)) first
      (run-IsBalanced cs (transaction (change c) db) first.unique)
