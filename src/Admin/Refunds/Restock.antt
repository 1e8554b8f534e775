-- ===== src/Admin/Refunds/Restock.antt =====
-- A paid order takes its units from the stock, and a full refund before delivery brings them back.
use buchuqin_api.Prelude.{
  ap, ℕ, ◌+◌, ◌≤◌, ◌≡◌, refl, Bool, true, false, List, [], ◌∷◌, ◌==◌, arith, if◌then◌else◌,
  Bool-cases, inl, inr,
}
use buchuqin_api.Store.{Db, bad_request}
use buchuqin_api.Store.Holds.{Holds, Holds-map, Holds-won_some, Holds-bind}
use buchuqin_api.Store.Table.{
  Pairs, none_left, pair, Pairs-refl, count_where, update_many, count_where_narrow,
}
use buchuqin_api.Store.Rows.{Product, Order, OrderLine}
use buchuqin_api.Business.Limits.{line_quantity}
use buchuqin_api.Business.Pay.{can_sell, sell, sell_line, sell_lines}
use buchuqin_api.Admin.Refunds.Finish.{is_restocked, take_back, restock, restore_stock}

-- The units of a product that a refund brings back: those of the lines that were sold from the source
-- that the product has now.
abbrev pub units_back : List OrderLine → Product → ℕ
units_back [] p = 0
units_back (l ∷ ls) p =
    let rest = units_back ls p in if is_restocked l p then l.quantity + rest else rest

-- The product before and after the sale of the lines.
pub record IsSoldOf (ls : List OrderLine) (p q : Product) : Type 0 where
  pub id : q.id ≡ p.id
  pub procurement_mode : q.procurement_mode ≡ p.procurement_mode
  pub returned : q.returned ≡ p.returned
  pub stock : q.stock + line_quantity p.id ls ≡ p.stock
  pub sales : q.sales ≡ p.sales + line_quantity p.id ls

-- The product before and after the refund of the lines.
pub record IsBackOf (ls : List OrderLine) (p q : Product) : Type 0 where
  pub id : q.id ≡ p.id
  pub procurement_mode : q.procurement_mode ≡ p.procurement_mode
  pub sales : q.sales ≡ p.sales
  pub stock : q.stock ≡ p.stock + units_back ls p
  pub returned : q.returned ≡ p.returned + units_back ls p

-- A product that was sold and brought back: of the units that were sold, those of another source than the
-- product has now are missing, and no other.
pub record IsGivenBack (ls : List OrderLine) (p q : Product) : Type 0 where
  pub id : q.id ≡ p.id
  pub stock : q.stock + line_quantity p.id ls ≡ p.stock + units_back ls p
  pub sales : q.sales + p.returned + units_back ls p ≡ p.sales + q.returned + line_quantity p.id ls

abbrev pub is_product : ℕ → Product → Bool
is_product id p = p.id == id

Pairs-compose {ℓ} :
    {A : Type ℓ} (R S T : A → A → Type 0)
    → ((x y z : A) → R x y → S y z → T x z)
    → (xs ys zs : List A) → Pairs R xs ys
    → Pairs S ys zs
    → Pairs T xs zs
Pairs-compose R S T join xs ys zs none_left none_left = none_left
Pairs-compose R S T join xs ys zs (pair {x} {y} h t) (pair {y = z} k u) =
    pair (join x y z h k) (Pairs-compose R S T join _ _ _ t u)

units_back_same :
    (p q : Product) (ls : List OrderLine)
    → q.id ≡ p.id
    → q.procurement_mode ≡ p.procurement_mode
    → units_back ls q ≡ units_back ls p
units_back_same p q [] i m = refl
units_back_same p q (x ∷ ls) i m = rw (units_back_same p q ls i m, i, m) refl

module _ (l : OrderLine) where
  sell_one : (p : Product) → can_sell l p ≡ true → IsSoldOf (l ∷ []) p (sell l p)
  unfolding line_quantity
  sell_one p h = ground arith

  sell_other : (p : Product) → (p.id == l.product_id) ≡ false → IsSoldOf (l ∷ []) p p
  unfolding line_quantity
  sell_other p h = ground arith

  sell_absent :
      (ps : List Product)
      → count_where (is_product l.product_id) ps ≡ 0
      → Pairs (IsSoldOf (l ∷ [])) ps (update_many (can_sell l) (sell l) ps)
  sell_absent [] h = none_left
  sell_absent (p ∷ ps) h = elim (Bool-cases (p.id == l.product_id)) [
    | inl e ↦ absurd (ground arith)
    | inr e ↦ rw e (pair (sell_other p e) (sell_absent ps (ground arith)))
  ]

  -- Where an identifier stands at most once, a sale that finds a row sells the row of its product.
  sell_unique :
      (ps : List Product)
      → count_where (is_product l.product_id) ps ≤ 1
      → 1 ≤ count_where (can_sell l) ps
      → Pairs (IsSoldOf (l ∷ [])) ps (update_many (can_sell l) (sell l) ps)
  sell_unique [] one sold = none_left
  sell_unique (p ∷ ps) one sold = elim (Bool-cases (p.id == l.product_id)) [
    | inl e ↦ elim (Bool-cases (can_sell l p)) [
      | inl c ↦ rw c (pair (sell_one p c) (sell_absent ps (ground arith)))
      | inr c ↦
          let gone : count_where (can_sell l) ps ≡ 0 =
            count_where_narrow (can_sell l) (is_product l.product_id) ps (λ x h. ground arith)
              (ground arith) in
          absurd (ground arith)
    ]
    | inr e ↦ rw e (pair (sell_other p e) (sell_unique ps (ground arith) (ground arith)))
  ]

  back_one : (p : Product) → is_restocked l p ≡ true → IsBackOf (l ∷ []) p (take_back l p)
  back_one p h = ground arith

  back_other : (p : Product) → is_restocked l p ≡ false → IsBackOf (l ∷ []) p p
  back_other p h = ground arith

  restock_one :
      (ps : List Product)
      → Pairs (IsBackOf (l ∷ [])) ps (update_many (is_restocked l) (take_back l) ps)
  restock_one [] = none_left
  restock_one (p ∷ ps) = elim (Bool-cases (is_restocked l p)) [
    | inl e ↦ rw e (pair (back_one p e) (restock_one ps))
    | inr e ↦ rw e (pair (back_other p e) (restock_one ps))
  ]

  sold_then :
      (ls : List OrderLine) (p q r : Product)
      → IsSoldOf (l ∷ []) p q
      → IsSoldOf ls q r
      → IsSoldOf (l ∷ ls) p r
  unfolding line_quantity
  sold_then ls p q r h k = let same = ap (λ i. line_quantity i ls) h.id in ground arith

  back_then :
      (ls : List OrderLine) (p q r : Product)
      → IsBackOf (l ∷ []) p q
      → IsBackOf ls q r
      → IsBackOf (l ∷ ls) p r
  back_then ls p q r h k = let same = units_back_same p q ls h.id h.procurement_mode in ground arith

sold_nothing : (p : Product) → IsSoldOf [] p p
unfolding line_quantity
sold_nothing p = ground arith

back_nothing : (p : Product) → IsBackOf [] p p
back_nothing p = ground arith

restock_lines : (ls : List OrderLine) (ps : List Product) → Pairs (IsBackOf ls) ps (restock ls ps)
unfolding restock
restock_lines [] ps = Pairs-refl (IsBackOf []) back_nothing ps
restock_lines (l ∷ ls) ps =
    Pairs-compose (IsBackOf (l ∷ [])) (IsBackOf ls) (IsBackOf (l ∷ ls)) (back_then l ls) _ _ _
      (restock_one l ps) (restock_lines ls (update_many (is_restocked l) (take_back l) ps))

-- Every identifier stands at most once.
abbrev pub Unique : List Product → Type 0
Unique ps = (id : ℕ) → count_where (is_product id) ps ≤ 1

count_where-sold :
    (ls : List OrderLine) (id : ℕ) (ps qs : List Product)
    → Pairs (IsSoldOf ls) ps qs
    → count_where (is_product id) qs ≡ count_where (is_product id) ps
count_where-sold ls id ps qs none_left = refl
count_where-sold ls id ps qs (pair h t) = rw (h.id, count_where-sold ls id _ _ t) refl

sell_lines_units :
    (ls : List OrderLine) (db : Db)
    → Unique db.products
    → Holds (λ d. Pairs (IsSoldOf ls) db.products d.products) (sell_lines ls db)
unfolding sell_lines sell_line
sell_lines_units [] db u = Pairs-refl (IsSoldOf []) sold_nothing db.products
sell_lines_units (l ∷ ls) db u =
    let P = λ (d : Db). Pairs (IsSoldOf (l ∷ [])) db.products d.products in
    let Q = λ (d : Db). Pairs (IsSoldOf (l ∷ ls)) db.products d.products in
    let db₁ = record db { products = update_many (can_sell l) (sell l) db.products } in
    Holds-bind P Q (sell_line l) (λ _. sell_lines ls) db
      (Holds-won_some P (count_where (can_sell l) db.products) (bad_request "库存不足") db₁
        λ sold. sell_unique l db.products (u l.product_id) sold)
      λ _ d h.
        Holds-map (λ e. Pairs (IsSoldOf ls) d.products e.products) Q (sell_lines ls d)
          (λ e k.
            Pairs-compose (IsSoldOf (l ∷ [])) (IsSoldOf ls) (IsSoldOf (l ∷ ls)) (sold_then l ls) _ _
              _ h k)
          (sell_lines_units ls d
            λ id. rw (count_where-sold (l ∷ []) id db.products d.products h) (u id))

given_back :
    (ls : List OrderLine) (p q r : Product) → IsSoldOf ls p q → IsBackOf ls q r → IsGivenBack ls p r
given_back ls p q r h k = let same = units_back_same p q ls h.id h.procurement_mode in ground arith

-- The sale of an order's lines, and the restocking of the order after it, on a stock in which every
-- identifier stands at most once: of the units that were sold, each product has back those that were sold
-- from the source that the product has, and its sales are less by as many; `current` is the order as the
-- refund reads it, not restocked yet. So a product all of whose lines
-- were sold from its source has its stock and its sales back.
pub sell_lines-restore_stock :
    (o current : Order) (db : Db)
    → current.stock_restored ≡ false
    → Unique db.products
    → Holds
        (λ d.
          Holds
            (λ e. Pairs (IsGivenBack o.items) db.products e.products)
            (restore_stock o current d))
        (sell_lines o.items db)
unfolding restore_stock
sell_lines-restore_stock o current db open_ u =
    Holds-map (λ d. Pairs (IsSoldOf o.items) db.products d.products)
      (λ d.
        Holds (λ e. Pairs (IsGivenBack o.items) db.products e.products) (restore_stock o current d))
      (sell_lines o.items db)
      (λ d h. rw open_ (
        Pairs-compose (IsSoldOf o.items) (IsBackOf o.items) (IsGivenBack o.items)
          (given_back o.items) _ _ _ h (restock_lines o.items d.products)))
      (sell_lines_units o.items db u)
