-- ===== src/Business/Coupons/Wheel.antt =====
-- src/business/business.service.ts, `pickPrize`: the choice of a prize by weight.
-- `roll` is the whole part of `Math.random() * total`: with whole weights the choice depends on no more.
use buchuqin_api.Prelude.{
  ℕ, zero, suc, ◌+◌, ◌-◌, ◌≤◌, ◌<◌, ◌≡◌, refl, false, List, [], ◌∷◌, Option, none, some, arith, ltb,
  if◌then◌else◌, Bool-cases, inl, inr, ◌==◌, ap, ◌∙◌,
}

-- The prizes with their indices, from `n` on, less those without weight.
unfoldable pub pool_from : ℕ → List ℕ → List (ℕ × ℕ)
pool_from n [] = []
pool_from n (w ∷ ws) = let rest = pool_from (n + 1) ws in if w == 0 then rest else (n, w) ∷ rest

abbrev pub pool_weight : List (ℕ × ℕ) → ℕ
pool_weight [] = 0
pool_weight (x ∷ xs) = x.1 + pool_weight xs

abbrev last_index : List (ℕ × ℕ) → ℕ
last_index [] = 0
last_index (x ∷ []) = x.0
last_index (x ∷ y ∷ xs) = last_index (y ∷ xs)

-- The loop: the index of the prize on which the roll falls, and the last one's past the total.
unfoldable pub fall_on : ℕ → List (ℕ × ℕ) → ℕ → ℕ
fall_on last [] roll = last
fall_on last (x ∷ xs) roll =
    let rest = fall_on last xs (roll - x.1) in if ltb roll x.1 then x.0 else rest

-- `pickPrize`: the index of the prize.
unfoldable pub pick_prize : List ℕ → ℕ → Option ℕ
unfolding pool_from fall_on
pick_prize weights roll =
    let pool = pool_from 0 weights in
    if pool_weight pool == 0 then none else some (fall_on (last_index pool) pool roll)

-- The weight at an index, and the weights before it.
abbrev pub weight_at : List ℕ → ℕ → ℕ
weight_at [] n = 0
weight_at (w ∷ ws) zero = w
weight_at (w ∷ ws) (suc n) = weight_at ws n

abbrev pub weight_before : List ℕ → ℕ → ℕ
weight_before [] n = 0
weight_before (w ∷ ws) zero = 0
weight_before (w ∷ ws) (suc n) = w + weight_before ws n

abbrev pub total_weight : List ℕ → ℕ
total_weight [] = 0
total_weight (w ∷ ws) = w + total_weight ws

pool_weight-pool_from : (n : ℕ) (ws : List ℕ) → pool_weight (pool_from n ws) ≡ total_weight ws
unfolding pool_from
pool_weight-pool_from n [] = refl
pool_weight-pool_from n (w ∷ ws) = ground (arith, pool_weight-pool_from (n + 1) ws)

-- The prize that a roll falls on, in a pool of the prizes from `n` on.
fall_on-Lands :
    (n last : ℕ) (ws : List ℕ) (roll : ℕ)
    → roll < total_weight ws
    → (k : ℕ) × (fall_on last (pool_from n ws) roll ≡ n + k)
      × (weight_before ws k ≤ roll)
      × (roll < weight_before ws k + weight_at ws k)
unfolding pool_from fall_on
fall_on-Lands n last [] roll below = absurd (omega arith)
fall_on-Lands n last (w ∷ ws) roll below = elim (Bool-cases (ltb roll w)) [
  | inl hit ↦ (0, ground arith, omega arith, ground arith)
  | inr miss ↦
      let past : w ≤ roll = ground arith in
      let (k, e, after, before) = fall_on-Lands (n + 1) last ws (roll - w) (omega arith) in
      (suc k, of_miss k miss e, omega arith, omega arith)
]
  where
    of_miss :
        (k : ℕ)
        → ltb roll w ≡ false
        → fall_on last (pool_from (n + 1) ws) (roll - w) ≡ n + 1 + k
        → fall_on last (pool_from n (w ∷ ws)) roll ≡ n + suc k
    of_miss k miss e = elim (Bool-cases (w == 0)) [
      | inl none_ ↦
          let light : roll - w ≡ roll = ground arith in
          let e' : fall_on last (pool_from (n + 1) ws) roll ≡ n + 1 + k = rw light at e in
          rw none_ (e' ∙ omega arith)
      | inr some_ ↦ rw (some_, miss) (e ∙ omega arith)
    ]

-- A roll below the sum of the weights gives a prize, in whose share of the sum the roll lies: it is at
-- least the sum of the weights before the prize, and less than that sum with the prize's own weight.
pub pick_prize-Lands :
    (weights : List ℕ) (roll : ℕ)
    → roll < total_weight weights
    → (k : ℕ) × (pick_prize weights roll ≡ some k)
      × (weight_before weights k ≤ roll)
      × (roll < weight_before weights k + weight_at weights k)
unfolding pick_prize
pick_prize-Lands weights roll below =
    let positive : (pool_weight (pool_from 0 weights) == 0) ≡ false =
      rw (pool_weight-pool_from 0 weights) (ground arith) in
    let (k, e, after, before) =
      fall_on-Lands 0 (last_index (pool_from 0 weights)) weights roll below in
    let zero_plus : 0 + k ≡ k = omega arith in
    (k, rw (positive, e) (ap some zero_plus), after, before)
