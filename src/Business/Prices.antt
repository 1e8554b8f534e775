-- ===== src/Business/Prices.antt =====
-- src/business/business.service.ts: the promotions of a product (`promotionMap`, `activeSeckillMap`) and the
-- price that a cart line has. The reads of a request are taken at one time of the clock.
pub mod Laws
use buchuqin_api.Prelude.{
  ℕ, Bool, true, false, List, [], ◌∷◌, Option, none, some, ◌==◌, ◌||◌, ◌&&◌, not, leb, ltb,
  if◌then◌else◌,
}
use buchuqin_api.Store.Rows.{Product, Promotion, PromotionKind}

-- `status: 'active', startsAt: { lte: now }, endsAt: { gt: now }`
abbrev pub is_running : ℕ → ℕ → Promotion → Bool
is_running now product_id r =
    (r.product_id == product_id) && r.active && leb r.starts_at now && ltb now r.ends_at

abbrev pub is_seckill : Promotion → Bool
is_seckill r = elim r.kind [ PromotionKind.seckill ↦ true | PromotionKind.clearance ↦ false ]

-- `orderBy: [{ endsAt: 'asc' }, { createdAt: 'asc' }]`
abbrev pub is_before : Promotion → Promotion → Bool
is_before a b =
    ltb a.ends_at b.ends_at || ((a.ends_at == b.ends_at) && ltb a.created_at b.created_at)

abbrev pub earlier : Promotion → Option Promotion → Promotion
earlier r none = r
earlier r (some best) = if is_before best r then best else r

-- The first promotion of a filter in that order, the first row of those that are equal in it.
unfoldable pub first_promotion : (Promotion → Bool) → List Promotion → Option Promotion
first_promotion p [] = none
first_promotion p (r ∷ rs) =
    let rest = first_promotion p rs in if p r then some (earlier r rest) else rest

-- `activeSeckillMap`, at a product
unfoldable pub active_seckill : ℕ → ℕ → List Promotion → Option Promotion
unfolding first_promotion
active_seckill now product_id = first_promotion (λ r. is_running now product_id r && is_seckill r)

-- `promotionMap` without the seckill, at a product
unfoldable pub normal_promotion : ℕ → ℕ → List Promotion → Option Promotion
unfolding first_promotion
normal_promotion now product_id =
    first_promotion (λ r. is_running now product_id r && not (is_seckill r))

abbrev pub price_or : ℕ → Option Promotion → ℕ
price_or price none = price
price_or price (some r) = r.price

abbrev pub or_promotion : Option Promotion → Option Promotion → Option Promotion
or_promotion none b = b
or_promotion (some a) b = some a

-- The price of a cart line: that of the seckill for a line that came from one, else that of the other
-- promotion, else the product's.
unfoldable pub line_price : ℕ → Bool → Product → List Promotion → ℕ
unfolding active_seckill normal_promotion
line_price now as_seckill p promotions =
    let normal = normal_promotion now p.id promotions in
    price_or p.price
      (if as_seckill then or_promotion (active_seckill now p.id promotions) normal else normal)
