-- ===== src/Admin/Inventory/Ledger.antt =====
-- The ledger of the stock: the stock of a product, what the ledger says of it, and the rows that keep both
-- in step.
use buchuqin_api.Prelude.{
  ap, sym, ◌∙◌, ℕ, ◌+◌, ◌≤◌, ◌≡◌, refl, Bool, true, false, [], ◌∷◌, ◌++◌, ◌==◌, arith, Bool-cases,
  inl, inr, ℤ, pos_part, neg_part,
}
use buchuqin_api.Store.{Db}
use buchuqin_api.Store.Sums.{sum_where-update_miss}
use buchuqin_api.Store.Table.{
  count_where, sum_where, update_many, sum_where-append, count_where-update,
}
use buchuqin_api.Store.Rows.{Product, InventoryTxn, TxnKind}
use buchuqin_api.Admin.Inventory.{has_product_id}

abbrev pub is_txn_of : ℕ → InventoryTxn → Bool
is_txn_of id t = t.product_id == id

abbrev pub came : InventoryTxn → ℕ
came t = pos_part t.delta

abbrev pub went : InventoryTxn → ℕ
went t = neg_part t.delta

-- The stock of a product, and what the ledger says came to it and left it.
abbrev pub stock_of : ℕ → Db → ℕ
stock_of id db = sum_where (has_product_id id) (λ p. p.stock) db.products

abbrev pub came_to : ℕ → Db → ℕ
came_to id db = sum_where (is_txn_of id) came db.inventory_txns

abbrev pub left : ℕ → Db → ℕ
left id db = sum_where (is_txn_of id) went db.inventory_txns

abbrev pub IsUnique : Db → Type 0
IsUnique db = (id : ℕ) → count_where (has_product_id id) db.products ≤ 1

-- The stock changed as the ledger says.
pub record IsBalanced (db d : Db) : Type 0 where
  pub unique : IsUnique d
  pub balance :
      (id : ℕ)
      → stock_of id d + came_to id db + left id d ≡ stock_of id db + came_to id d + left id db

pub IsBalanced-refl : (db : Db) → IsUnique db → IsBalanced db db
IsBalanced-refl db u = record { unique = u; balance = λ id. omega arith }

pub IsBalanced-trans : (a b c : Db) → IsBalanced a b → IsBalanced b c → IsBalanced a c
IsBalanced-trans a b c h k = record {
  unique = k.unique;
  balance = λ id. omega (arith, h.balance id, k.balance id);
}

-- The database after a row of the ledger and an update of the products.
abbrev pub moved : ℕ → TxnKind → ℤ → (Product → Bool) → (Product → Product) → Db → Db
moved id kind delta q g db = record db {
  products = update_many q g db.products;
  inventory_txns =
      db.inventory_txns ++ (record { product_id = id; kind = kind; delta = delta } ∷ []);
}

-- The test of a row of the ledger, where it is passed and where not.
id_eq : (id i : ℕ) → (id == i) ≡ true → id ≡ i
id_eq id i e = ground arith

module _ (id : ℕ) (kind : TxnKind) (delta : ℤ) (q : Product → Bool) (g : Product → Product)
    (db : Db) where
  module _ (keeps : (p : Product) → (g p).id ≡ p.id)
      (narrow : (p : Product) → q p ≡ true → has_product_id id p ≡ true)
      (change : stock_of id (moved id kind delta q g db) + neg_part delta
        ≡ stock_of id db + pos_part delta) where
    stock_of-moved_other :
        (i : ℕ) → (id == i) ≡ false → stock_of i (moved id kind delta q g db) ≡ stock_of i db
    stock_of-moved_other i e =
        sum_where-update_miss (has_product_id i) (λ p. p.stock) q g db.products
          (λ p. rw (keeps p) refl) λ p h. let k = narrow p h in ground arith

    moved_balance :
        (i : ℕ)
        → stock_of i (moved id kind delta q g db)
            + came_to i db
            + left i (moved id kind delta q g db)
          ≡ stock_of i db + came_to i (moved id kind delta q g db) + left i db
    moved_balance i =
        let cames =
          sum_where-append (is_txn_of i) came db.inventory_txns
            (record { product_id = id; kind = kind; delta = delta } ∷ []) in
        let wents =
          sum_where-append (is_txn_of i) went db.inventory_txns
            (record { product_id = id; kind = kind; delta = delta } ∷ []) in
        elim (Bool-cases (id == i)) [
          | inl e ↦
              let same =
                ap (λ j. stock_of j (moved id kind delta q g db) + neg_part delta)
                  (sym (id_eq id i e))
                ∙ change
                ∙ ap (λ j. stock_of j db + pos_part delta) (id_eq id i e) in
              rw (cames, wents, e) (omega (arith, same))
          | inr e ↦
              let same = stock_of-moved_other i e in rw (cames, wents, e) (omega (arith, same))
        ]

    -- An update of the one product of a row of the ledger, by what the row says, keeps the balance.
    pub moved-IsBalanced : IsUnique db → IsBalanced db (moved id kind delta q g db)
    moved-IsBalanced u = record {
      unique = λ i.
          rw (count_where-update (has_product_id i) q g db.products λ p _. rw (keeps p) refl) (u i);
      balance = moved_balance;
    }
