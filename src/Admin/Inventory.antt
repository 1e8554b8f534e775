-- ===== src/Admin/Inventory.antt =====
-- src/admin/admin.service.ts: the stock by hand, `stockIn`, `adjustStock` and `stocktake`. What the shop
-- owns is the stock of its products; each change of it leaves a row in the ledger. The audit log and the
-- columns of text are left out.
pub mod Ledger
pub mod Laws
use Prim.Native.String.{String}
use buchuqin_api.Prelude.{
  ℕ, ◌+◌, Bool, true, false, List, [], ◌∷◌, ◌++◌, Option, none, some, ◌==◌, ◌&&◌, ◌||◌, not,
  if◌then◌else◌, ℤ, pos, negsuc, ltb_ℤ, sub_ℕ, pos_part, neg_part,
}
use buchuqin_api.Store.{
  Db, Tx, ◌>>=◌, ◌>>◌, pure, read, write, require, expect, when, ok, bad_request, not_found,
}
use buchuqin_api.Store.Table.{find_first, count_where, update_many}
use buchuqin_api.Store.Rows.{Product, ProcurementMode, InventoryTxn, TxnKind}

abbrev pub has_product_id : ℕ → Product → Bool
has_product_id id p = p.id == id

abbrev pub is_product_of : ℕ → ℕ → Product → Bool
is_product_of id campus p = (p.id == id) && (p.campus_id == campus)

unfoldable pub read_product : ℕ → ℕ → Tx Product
read_product id campus = do
  found ← read (λ db. find_first (is_product_of id campus) db.products)
  expect found (not_found "商品不存在")

-- `inventoryTxn.create`
unfoldable pub log_txn : ℕ → TxnKind → ℤ → Tx (Unit {0})
log_txn id kind delta = write λ db. record db {
  inventory_txns =
      db.inventory_txns ++ (record { product_id = id; kind = kind; delta = delta } ∷ []);
}

abbrev pub is_local : Product → Bool
is_local p = elim p.procurement_mode [
  | none ↦ false
  | some m ↦ elim m [ ProcurementMode.hq ↦ false | ProcurementMode.local ↦ true ]
]

-- The filter of the update; `official` is whether the campus is the warehouse of the headquarters.
abbrev pub is_stockable : Bool → ℕ → Product → Bool
is_stockable official id p = has_product_id id p && (official || is_local p)

-- A stock and its change.
abbrev pub shifted : ℕ → ℤ → ℤ
shifted n delta = sub_ℕ (n + pos_part delta) (neg_part delta)

-- `stock: { increment: delta }`; the guards keep the sum from going below zero.
abbrev pub add_stock : ℤ → Product → Product
add_stock delta p = record p { stock = pos_part (shifted p.stock delta) }

-- `stockIn`
unfoldable pub stock_in : Bool → ℕ → ℕ → ℕ → Tx (Unit {0})
unfolding read_product log_txn
stock_in official campus id quantity = do
  p ← read_product id campus
  require (official || is_local p) (bad_request "只有本地采购商品可以手工采购入库")
  log_txn id TxnKind.stock_in (pos quantity)
  n ← λ db. ok (count_where (is_stockable official id) db.products) (record db {
    products = update_many (is_stockable official id) (add_stock (pos quantity)) db.products;
  })
  require (n == 1) (bad_request "商品采购方式已变化，请刷新后重试")

abbrev pub is_zero : ℤ → Bool
is_zero (pos n) = n == 0
is_zero (negsuc n) = false

-- The transaction of `adjustStock`, which reads the product again.
unfoldable pub adjust_tx : ℕ → ℤ → Tx (Unit {0})
unfolding log_txn
adjust_tx id delta = do
  found ← read (λ db. find_first (has_product_id id) db.products)
  current ← expect found (not_found "商品不存在")
  require (not (ltb_ℤ (shifted current.stock delta) (pos 0))) (bad_request "调整后库存不能为负数")
  log_txn id TxnKind.adjust delta
  write λ db. record db { products = update_many (has_product_id id) (add_stock delta) db.products }

-- `adjustStock`
unfoldable pub adjust_stock : ℕ → ℕ → ℤ → Tx (Unit {0})
unfolding read_product adjust_tx
adjust_stock campus id delta = do
  require (not (is_zero delta)) (bad_request "调整数量不能为 0")
  read_product id campus >>= λ _. adjust_tx id delta

abbrev pub set_stock : ℕ → Product → Product
set_stock n p = record p { stock = n }

-- The transaction of `stocktake`; `product` is the row that was read in front of it.
unfoldable pub stocktake_tx : Product → ℕ → Tx (Unit {0})
unfolding log_txn
stocktake_tx product counted = do
  log_txn product.id TxnKind.adjust (sub_ℕ counted product.stock)
  write λ db. record db {
    products = update_many (has_product_id product.id) (set_stock counted) db.products;
  }

-- `stocktake` behind the read of the product.
unfoldable pub stocktake_read : ℤ → Product → Tx (Unit {0})
unfolding stocktake_tx
stocktake_read (pos counted) product =
    when (not (counted == product.stock)) (stocktake_tx product counted)
stocktake_read (negsuc n) product = require false (bad_request "清点数量不能为负数")

-- `stocktake`
unfoldable pub stocktake : ℕ → ℕ → ℤ → Tx (Unit {0})
unfolding read_product stocktake_read
stocktake campus id counted = read_product id campus >>= stocktake_read counted
