-- ===== src/Business/Advance/Laws.antt =====
-- An order leaves the stock room once, and the ledger says what left with it.
use Prim.Native.String.{String}
use buchuqin_api.Prelude.{
  ap, ◌∙◌, Bool-cases, inl, inr, sub_ℕ, ℕ, ◌+◌, ◌≡◌, refl, ◌≤◌, ◌||◌, ◌&&◌, Bool, true, List, [],
  ◌∷◌, ◌++◌, ◌==◌, arith, neg_part,
}
use buchuqin_api.Common.Status.{Status, is_status, includes}
use buchuqin_api.Store.{Db, ok, bad_request, ◌>>=◌, ◌>>◌, read, write, has_order_id}
use buchuqin_api.Store.Holds.{Holds, IsThrown, Holds-require, Holds-won_here, Holds-bind}
use buchuqin_api.Store.Table.{
  count_where, update_many, sum_where, sum_where-append, count_where_narrow,
}
use buchuqin_api.Store.Rows.{Order, OrderLine, Product, InventoryTxn, LastMileMode}
use buchuqin_api.Business.Limits.{line_quantity}
use buchuqin_api.Business.Refunds.{is_as_read}
use buchuqin_api.Business.Pay.{notify}
use buchuqin_api.Business.Advance.{
  leave_stock, exists_product, out_txns, leave, outbound_read, outbound_failure, has_manager_for,
  last_mile_mode_for,
}

-- What the ledger says left of a product.
abbrev is_of : ℕ → InventoryTxn → Bool
is_of id t = t.product_id == id

abbrev went : InventoryTxn → ℕ
went t = neg_part t.delta

abbrev pub booked_out : ℕ → Db → ℕ
booked_out id db = sum_where (is_of id) went db.inventory_txns

id_eq : (a b : ℕ) → (a == b) ≡ true → a ≡ b
id_eq a b h = ground arith

sub_all : (n : ℕ) → neg_part (sub_ℕ 0 n) ≡ n
sub_all n = ground arith

out_txns-line_quantity :
    (id : ℕ) (ps : List Product) (ls : List OrderLine)
    → exists_product id ps ≡ true
    → sum_where (is_of id) went (out_txns ps ls) ≡ line_quantity id ls
unfolding out_txns line_quantity
out_txns-line_quantity id ps [] e = refl
out_txns-line_quantity id ps (l ∷ ls) e =
    let rest = out_txns-line_quantity id ps ls e in
    elim (Bool-cases (l.product_id == id)) [
      | inl h ↦
          let same : exists_product l.product_id ps ≡ true =
            ap (λ i. exists_product i ps) (id_eq l.product_id id h) ∙ e in
          rw (same, h) (omega (arith, rest, sub_all l.quantity))
      | inr h ↦ elim (Bool-cases (exists_product l.product_id ps)) [
        | inl x ↦ rw (x, h) rest
        | inr x ↦ rw (x, h) rest
      ]
    ]

-- An order that is in the stock room.
abbrev is_inside : ℕ → Order → Bool
is_inside id x =
    has_order_id id x && (is_status x.status Status.paid || is_status x.status Status.picking)

as_read-le :
    (raw : Order) (xs : List Order)
    → count_where (is_as_read raw) xs ≤ count_where (has_order_id raw.id) xs
as_read-le raw [] = omega arith
as_read-le raw (x ∷ xs) = ground (arith, as_read-le raw xs)

-- Where every order with the identifier is as it was read, the update leaves none of them inside.
update_many-IsOut :
    (now : ℕ) (mode : LastMileMode) (raw : Order) (xs : List Order)
    → count_where (has_order_id raw.id) xs ≤ count_where (is_as_read raw) xs
    → count_where (is_inside raw.id) (update_many (is_as_read raw) (leave_stock now mode raw) xs)
      ≡ 0
update_many-IsOut now mode raw [] h = refl
update_many-IsOut now mode raw (x ∷ xs) h =
    let rest = update_many-IsOut now mode raw xs in
    let bound = as_read-le raw xs in
    elim (Bool-cases (is_as_read raw x)) [
      | inl e ↦ rw e (ground (arith, h))
      | inr e ↦ rw e (ground (arith, h))
    ]

module _ (now : ℕ) (raw : Order) (db : Db) where
  left_orders : LastMileMode → Db
  left_orders mode = record db {
    orders = update_many (is_as_read raw) (leave_stock now mode raw) db.orders;
  }

  outbound_read-Holds :
      (Q : Db → Type 0)
      → ((mode : LastMileMode)
          → includes (Status.paid ∷ Status.picking ∷ []) raw.status ≡ true
          → 1 ≤ count_where (is_as_read raw) db.orders
          → Q (record (left_orders mode) {
            inventory_txns = db.inventory_txns ++ out_txns db.products raw.items;
          }))
      → ((d : Db) → Q d → Holds Q (notify raw.user_id "已出库，待配送员接单" d))
      → Holds Q (outbound_read now raw db)
  unfolding outbound_read leave left_orders
  outbound_read-Holds Q step told =
      let text : String = "已出库，待配送员接单" in
      let stockroom = includes (Status.paid ∷ Status.picking ∷ []) raw.status in
      let mode = last_mile_mode_for (has_manager_for raw.address.building_id db.staff) in
      Holds-require Q stockroom (outbound_failure raw.status)
        (read (λ d. has_manager_for raw.address.building_id d.staff) >>= λ m.
          leave now (last_mile_mode_for m) raw >> notify raw.user_id text)
        db
        λ here.
          Holds-bind Q Q (leave now mode raw) (λ _. notify raw.user_id text) db
            (Holds-won_here Q (count_where (is_as_read raw) db.orders) (bad_request "订单状态已变化")
              (write λ d. record d {
                inventory_txns = d.inventory_txns ++ out_txns d.products raw.items;
              })
              (left_orders mode) (step mode here))
            λ _ d h. told d h

  -- What the ledger books when an order leaves the stock room: of each product that still exists, exactly
  -- the units that the order's lines have of it.
  pub outbound_read-booked_out :
      (id : ℕ)
      → exists_product id db.products ≡ true
      → Holds
          (λ d. booked_out id d ≡ booked_out id db + line_quantity id raw.items)
          (outbound_read now raw db)
  unfolding left_orders notify
  outbound_read-booked_out id here =
      outbound_read-Holds (λ d. booked_out id d ≡ booked_out id db + line_quantity id raw.items)
        (λ mode _ _.
          rw
            (
              sum_where-append (is_of id) went db.inventory_txns (out_txns db.products raw.items),
              out_txns-line_quantity id db.products raw.items here,
            )
            refl)
        λ d h. h

  -- After it none with the order's identifier is in the stock room, if it was the only one.
  outbound_read-IsOut :
      count_where (has_order_id raw.id) db.orders ≤ 1
      → Holds (λ d. count_where (is_inside raw.id) d.orders ≡ 0) (outbound_read now raw db)
  unfolding left_orders notify
  outbound_read-IsOut single =
      outbound_read-Holds (λ d. count_where (is_inside raw.id) d.orders ≡ 0)
        (λ mode here read_. update_many-IsOut now mode raw db.orders (omega (arith, single, read_)))
        λ d h. h

leave-IsThrown :
    (now : ℕ) (mode : LastMileMode) (raw : Order) (db : Db)
    → count_where (is_as_read raw) db.orders ≡ 0
    → IsThrown (leave now mode raw db)
unfolding leave
leave-IsThrown now mode raw db gone = rw gone tt

outbound_read-IsThrown :
    (now : ℕ) (raw : Order) (db : Db)
    → (includes (Status.paid ∷ Status.picking ∷ []) raw.status ≡ true
        → count_where (is_as_read raw) db.orders ≡ 0)
    → IsThrown (outbound_read now raw db)
unfolding outbound_read
outbound_read-IsThrown now raw db gone =
    let text : String = "已出库，待配送员接单" in
    let mode = last_mile_mode_for (has_manager_for raw.address.building_id db.staff) in
    Holds-require (λ _. ⊥) (includes (Status.paid ∷ Status.picking ∷ []) raw.status)
      (outbound_failure raw.status)
      (read (λ d. has_manager_for raw.address.building_id d.staff) >>= λ m.
        leave now (last_mile_mode_for m) raw >> notify raw.user_id text)
      db
      λ here.
        Holds-bind (λ _. ⊥) (λ _. ⊥) (leave now mode raw) (λ _. notify raw.user_id text) db
          (leave-IsThrown now mode raw db (gone here)) λ _ _ b. absurd b

-- An order leaves the stock room once: where its identifier is no other order's, after it has left no other
-- request for it goes through, whatever state that request had read it in, so that the ledger does not book it
-- again.
pub outbound_read_once :
    (now later : ℕ) (raw other : Order) (db d : Db)
    → count_where (has_order_id raw.id) db.orders ≤ 1
    → other.id ≡ raw.id
    → outbound_read now raw db ≡ ok tt d
    → IsThrown (outbound_read later other d)
outbound_read_once now later raw other db d single same done =
    let out : count_where (is_inside raw.id) d.orders ≡ 0 =
      rw done at (outbound_read-IsOut now raw db single) in
    outbound_read-IsThrown later other d λ here.
      count_where_narrow (is_as_read other) (is_inside raw.id) d.orders (λ x h. ground arith) out
