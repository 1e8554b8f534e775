-- ===== src/Business/Prices/Laws.antt =====
-- The promotion that sets a price is, of those that run, the one that ends first.
use buchuqin_api.Prelude.{
  All-map, sym, ℕ, ◌≡◌, ◌≤◌, ◌<◌, ◌⊎◌, ltb, refl, Bool, true, false, List, [], ◌∷◌, Option, none,
  some, ◌&&◌, not, arith, All, Bool-cases, inl, inr,
}
use mathlib.Core.Path.{subst}
use buchuqin_api.Store.Rows.{Promotion, PromotionKind}
use buchuqin_api.Business.Prices.{
  is_before, earlier, first_promotion, is_running, is_seckill, active_seckill, normal_promotion,
}

earlier_kept : (r best : Promotion) → is_before best r ≡ true → earlier r (some best) ≡ best
earlier_kept r best b = rw b refl

earlier_new : (r best : Promotion) → is_before best r ≡ false → earlier r (some best) ≡ r
earlier_new r best b = rw b refl

module _ (p : Promotion → Bool) where
  -- The first of the filter: it passes it, and none that passes it is before; or none passes it.
  abbrev pub IsFirst : List Promotion → Option Promotion → Type 0
  IsFirst rs none = All (λ x. p x ≡ false) rs
  IsFirst rs (some b) = (p b ≡ true) × All (λ x. p x && is_before x b ≡ false) rs

  earlier-IsFirst :
      (r : Promotion) (rs : List Promotion) (rest : Option Promotion)
      → p r ≡ true
      → IsFirst rs rest
      → IsFirst (r ∷ rs) (some (earlier r rest))
  earlier-IsFirst r rs none e h = (e, (ground arith, All-map rs (λ x k. ground arith) h))
  earlier-IsFirst r rs (some best) e (passes, least) = elim (Bool-cases (is_before best r)) [
    | inl b ↦
        subst (λ x. IsFirst (r ∷ rs) (some x)) (sym (earlier_kept r best b))
          (passes, (ground arith, least))
    | inr b ↦
        subst (λ x. IsFirst (r ∷ rs) (some x)) (sym (earlier_new r best b))
          (e, (ground arith, All-map rs (λ x k. ground arith) least))
  ]

  pass-IsFirst :
      (r : Promotion) (rs : List Promotion) (rest : Option Promotion)
      → p r ≡ false
      → IsFirst rs rest
      → IsFirst (r ∷ rs) rest
  pass-IsFirst r rs none e h = (e, h)
  pass-IsFirst r rs (some best) e (passes, least) = (passes, (rw e refl, least))

  first_promotion-IsFirst : (rs : List Promotion) → IsFirst rs (first_promotion p rs)
  unfolding first_promotion
  first_promotion-IsFirst [] = tt
  first_promotion-IsFirst (r ∷ rs) = elim (Bool-cases (p r)) [
    | inl e ↦ rw e (earlier-IsFirst r rs (first_promotion p rs) e (first_promotion-IsFirst rs))
    | inr e ↦ rw e (pass-IsFirst r rs (first_promotion p rs) e (first_promotion-IsFirst rs))
  ]

abbrev pub kind_of : Bool → PromotionKind
kind_of true = PromotionKind.seckill
kind_of false = PromotionKind.clearance

-- A promotion of the product that is active, has begun and is not over; of the seckill kind or not.
pub record Runs (now product_id : ℕ) (seckill : Bool) (r : Promotion) : Type 0 where
  pub product : r.product_id ≡ product_id
  pub active : r.active ≡ true
  pub begun : r.starts_at ≤ now
  pub not_over : now < r.ends_at
  pub kind : r.kind ≡ kind_of seckill

-- A promotion that does not end before another, or ends with it and was made no earlier.
abbrev pub Follows : Promotion → Promotion → Type 0
Follows b x = (b.ends_at < x.ends_at) ⊎ ((b.ends_at ≡ x.ends_at) × (b.created_at ≤ x.created_at))

-- The promotion of a kind that sets the price: it runs, and each other that runs follows it; or none runs.
abbrev pub IsChosen : ℕ → ℕ → Bool → List Promotion → Option Promotion → Type 0
IsChosen now product_id k rs none = All (λ x. ¬ Runs now product_id k x) rs
IsChosen now product_id k rs (some b) =
    Runs now product_id k b × All (λ x. (¬ Runs now product_id k x) ⊎ Follows b x) rs

-- The two filters, by the kind.
abbrev of_kind : ℕ → ℕ → Bool → Promotion → Bool
of_kind now product_id true r = is_running now product_id r && is_seckill r
of_kind now product_id false r = is_running now product_id r && not (is_seckill r)

of_kind-Runs : (now i : ℕ) (k : Bool) (r : Promotion) → of_kind now i k r ≡ true → Runs now i k r
of_kind-Runs now i true r h = record {
  product = ground arith;
  active = ground arith;
  begun = ground arith;
  not_over = ground arith;
  kind = ground arith;
}
of_kind-Runs now i false r h = record {
  product = ground arith;
  active = ground arith;
  begun = ground arith;
  not_over = ground arith;
  kind = ground arith;
}

not_of_kind : (now i : ℕ) (k : Bool) (r : Promotion) → of_kind now i k r ≡ false → ¬ Runs now i k r
not_of_kind now i true r h run =
    ground (arith, run.product, run.active, run.begun, run.not_over, run.kind)
not_of_kind now i false r h run =
    ground (arith, run.product, run.active, run.begun, run.not_over, run.kind)

not_before : (b x : Promotion) → is_before x b ≡ false → Follows b x
not_before b x h = elim (Bool-cases (ltb b.ends_at x.ends_at)) [
  | inl e ↦ inl (ground arith)
  | inr e ↦ inr (ground arith, ground arith)
]

and_false : (a b : Bool) → a && b ≡ false → (a ≡ false) ⊎ (b ≡ false)
and_false true b h = inr h
and_false false b h = inl refl

IsFirst-IsChosen :
    (now i : ℕ) (k : Bool) (rs : List Promotion) (found : Option Promotion)
    → IsFirst (of_kind now i k) rs found
    → IsChosen now i k rs found
IsFirst-IsChosen now i k rs none h = All-map rs (λ x e. not_of_kind now i k x e) h
IsFirst-IsChosen now i k rs (some b) (passes, least) = (
  of_kind-Runs now i k b passes,
  All-map rs
      (λ x e. elim (and_false (of_kind now i k x) (is_before x b) e) [
        | inl out ↦ inl (not_of_kind now i k x out)
        | inr after ↦ inr (not_before b x after)
      ])
      least,
)

-- The seckill and the other promotion of a product: each is one of its kind that is active, has begun and is
-- not over, and of those of its kind none ends before it, or with it and was made before it; and there is
-- none only where none of its kind runs.
pub promotions-IsFirst :
    (now product_id : ℕ) (rs : List Promotion)
    → IsChosen now product_id true rs (active_seckill now product_id rs)
      × IsChosen now product_id false rs (normal_promotion now product_id rs)
unfolding active_seckill normal_promotion
promotions-IsFirst now product_id rs = (
  IsFirst-IsChosen now product_id true rs _
      (first_promotion-IsFirst (of_kind now product_id true) rs),
  IsFirst-IsChosen now product_id false rs _
      (first_promotion-IsFirst (of_kind now product_id false) rs),
)
