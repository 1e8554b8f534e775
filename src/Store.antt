-- ===== src/Store.antt =====
-- The database behind `PrismaService`, and the transactions over it.
pub mod Table
pub mod Rows
pub mod SameOrder
pub mod Holds
pub mod Sums
pub mod Yields
pub mod Request
use Prim.Native.String.{String}
use Table.{find_first, count_where, update_many}
use Rows.{
  Organization, User, Address, Campus, Staff, Product, Order, CartItem, Coupon, UserCoupon, Refund,
  Commission, Promotion, DeliverySlot, InventoryTxn, Notification, TransferLog,
}
use buchuqin_api.Prelude.{
  ℕ, zero, suc, ◌==◌, ◌≡◌, refl, ◌⊎◌, inl, inr, Bool, true, false, List, Option, none, some,
}

pub record Db : Type 0 where
  pub organizations : List Organization
  pub campuses : List Campus
  pub users : List User
  pub addresses : List Address
  pub staff : List Staff
  pub products : List Product
  pub orders : List Order
  pub cart_items : List CartItem
  pub promotions : List Promotion
  pub delivery_slots : List DeliverySlot
  pub coupons : List Coupon
  pub user_coupons : List UserCoupon
  pub refunds : List Refund
  pub commissions : List Commission
  pub inventory_txns : List InventoryTxn
  pub notifications : List Notification
  pub transfer_logs : List TransferLog
  pub next_id : ℕ  -- the identifier that the next created row gets

-- An exception of the framework, with its message. The values that a message quotes are left out.
pub data Failure : Type 0 where
  not_found bad_request forbidden conflict unavailable : String → Failure

pub data Outcome {ℓ} (A : Type ℓ) : Type ℓ where
  ok : A → Db → Outcome A
  thrown : Failure → Outcome A

-- The body of a transaction. One that throws has no database to show: what it wrote is gone.
abbrev pub Tx {ℓ} : Type ℓ → Type ℓ
Tx A = Db → Outcome A

abbrev pub pure {ℓ} : {A : Type ℓ} → A → Tx A
pure a db = ok a db

abbrev pub throw {ℓ} : {A : Type ℓ} → Failure → Tx A
throw e db = thrown e

infixl 5 ◌>>=◌ ◌>>◌
abbrev pub ◌>>=◌ {ℓ κ} : {A : Type ℓ} {B : Type κ} → Tx A → (A → Tx B) → Tx B
◌>>=◌ m f db = elim (m db) [ ok a db' ↦ f a db' | thrown e ↦ thrown e ]

abbrev pub ◌>>◌ {ℓ} : {B : Type ℓ} → Tx (Unit {0}) → Tx B → Tx B
m >> k = m >>= λ _. k

-- `if (!holds) throw new …`
abbrev pub require : Bool → Failure → Tx (Unit {0})
require true e db = ok tt db
require false e db = thrown e

-- `if (!row) throw new …`
abbrev pub expect {ℓ} : {A : Type ℓ} → Option A → Failure → Tx A
expect (some a) e db = ok a db
expect none e db = thrown e

abbrev pub read {ℓ} : {A : Type ℓ} → (Db → A) → Tx A
read f db = ok (f db) db

abbrev pub write : (Db → Db) → Tx (Unit {0})
write f db = ok tt (f db)

abbrev pub when : Bool → Tx (Unit {0}) → Tx (Unit {0})
when true m db = m db
when false m db = ok tt db

-- `$transaction`: the new database if the body returned, the old one if it threw.
unfoldable pub transaction {ℓ} : {A : Type ℓ} → Tx A → Db → Db
transaction m db = elim (m db) [ ok a db' ↦ db' | thrown e ↦ db ]

-- `updateMany` on the orders and on the coupons of the users, with the number of rows it matched.
abbrev pub update_orders : (Order → Bool) → (Order → Order) → Tx ℕ
update_orders p f db =
    ok (count_where p db.orders) (record db { orders = update_many p f db.orders })

abbrev pub update_user_coupons : (UserCoupon → Bool) → (UserCoupon → UserCoupon) → Tx ℕ
update_user_coupons p f db =
    ok (count_where p db.user_coupons)
      (record db { user_coupons = update_many p f db.user_coupons })

-- `if (!won.count) throw new …`
abbrev pub won : ℕ → Failure → Tx (Unit {0})
won zero e db = thrown e
won (suc n) e db = ok tt db

abbrev pub discard {ℓ} : {A : Type ℓ} → Tx A → Tx (Unit {0})
discard m = m >>= λ _. pure tt

abbrev pub has_order_id : ℕ → Order → Bool
has_order_id id o = o.id == id

abbrev pub find_order : ℕ → Db → Option Order
find_order id db = find_first (has_order_id id) db.orders
