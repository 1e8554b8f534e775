-- ===== src/Business/Limits.antt =====
-- src/business/business.service.ts: how much of a product a person may buy in a period
-- (`limitWindowStart`, `purchaseLimitBought`, `assertPurchaseLimit`).
-- The query's lower bound on the time is the earliest window, which every line's own window implies.
use buchuqin_api.Prelude.{
  ℕ, ◌+◌, Bool, true, false, List, [], ◌∷◌, Option, none, some, ◌==◌, ◌||◌, ◌&&◌, not, leb,
  if◌then◌else◌, zero, suc,
}
use buchuqin_api.Common.Status.{Status, is_status}
use buchuqin_api.Store.{Tx, ◌>>=◌, read, require, bad_request}
use buchuqin_api.Store.Rows.{
  Clock, PurchaseLimit, unlimited, weekly, monthly, Product, Order, OrderLine,
}

-- `limitWindowStart`
unfoldable pub limit_window_start : Clock → PurchaseLimit → ℕ
limit_window_start clock weekly = clock.week_start
limit_window_start clock monthly = clock.month_start
limit_window_start clock _ = 0

abbrev pub is_limited : PurchaseLimit → Bool
is_limited unlimited = false
is_limited _ = true

abbrev is_after : ℕ → Option ℕ → Bool
is_after start none = false
is_after start (some paid) = leb start paid

-- The quantity of a product in the lines of an order.
unfoldable pub line_quantity : ℕ → List OrderLine → ℕ
line_quantity product_id [] = 0
line_quantity product_id (l ∷ ls) =
    let rest = line_quantity product_id ls in
    if l.product_id == product_id then l.quantity + rest else rest

-- An order that counts: the person's, paid in the window, and neither refunded nor cancelled.
abbrev counts : ℕ → ℕ → Order → Bool
counts user_id start o =
    (o.user_id == user_id)
    && is_after start o.paid_at
    && not (is_status o.status Status.refunded || is_status o.status Status.cancelled)

-- `purchaseLimitBought`, at one product.
unfoldable pub purchase_limit_bought : Clock → ℕ → Product → List Order → ℕ
unfolding limit_window_start line_quantity
purchase_limit_bought clock user_id p [] = 0
purchase_limit_bought clock user_id p (o ∷ os) =
    let rest = purchase_limit_bought clock user_id p os in
    if counts user_id (limit_window_start clock p.purchase_limit) o
    then line_quantity p.id o.items + rest
    else rest

-- `purchaseLimitQty || 1`
abbrev or_one : ℕ → ℕ
or_one zero = 1
or_one (suc n) = suc n

abbrev pub contains : List ℕ → ℕ → Bool
contains [] a = false
contains (x ∷ xs) a = (x == a) || contains xs a

-- Whether the person has bought less of each limited product of the list than its limit.
unfoldable pub within_limits : Clock → ℕ → List ℕ → List Order → List Product → Bool
unfolding purchase_limit_bought
within_limits clock user_id ids os [] = true
within_limits clock user_id ids os (p ∷ ps) =
    (not (contains ids p.id && is_limited p.purchase_limit)
      || not (leb (or_one p.purchase_limit_qty) (purchase_limit_bought clock user_id p os)))
    && within_limits clock user_id ids os ps

-- `assertPurchaseLimit`
unfoldable pub assert_purchase_limit : Clock → ℕ → List ℕ → Tx (Unit {0})
unfolding within_limits
assert_purchase_limit clock user_id ids = do
  fine ← read (λ db. within_limits clock user_id ids db.orders db.products)
  require fine (bad_request "已达限购")
