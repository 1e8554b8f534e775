-- ===== src/Commission/Adjust/Share.antt =====
-- The share of what a person earned that `refundAdjust` takes back.
use buchuqin_api.Prelude.{
  ℕ, ◌+◌, ◌*◌, ◌^◌, ◌≤◌, ◌<◌, ◌≡◌, refl, inl, inr, List, [], ◌∷◌, ◌==◌, arith, Bool-cases, min, leb,
}
use buchuqin_api.Common.Double.Laws.{round_product-IsClose}
use buchuqin_api.Store.Table.{sum_where}
use buchuqin_api.Store.Rows.{Commission}
use buchuqin_api.Commission.Adjust.{Ratio, original_amount, bounded_share, abs, is_staff}

-- What a person earned: the sum of the amounts of the person's rows.
abbrev pub earned_by : ℕ → List Commission → ℕ
earned_by s = sum_where (is_staff s) (λ c. abs c.amount)

pub original_amount-earned_by :
    (s : ℕ) (cs : List Commission) → original_amount s cs ≡ earned_by s cs
unfolding original_amount
original_amount-earned_by s [] = refl
original_amount-earned_by s (c ∷ cs) = rw (original_amount-earned_by s cs) refl

-- A whole number that is less than one away from the share: the ratio, cut to 1, of the amount.
abbrev pub IsShare : ℕ → Ratio → ℕ → Type 0
IsShare a r n =
    (4 * (n * r.den) ≤ 4 * (a * min r.num r.den) + 3 * r.den)
    × (4 * (a * min r.num r.den) ≤ 4 * (n * r.den) + 3 * r.den)

pub bounded_share-IsShare :
    (a : ℕ) (r : Ratio) → 0 < r.den → a ≤ 2 ^ 50 → IsShare a r (bounded_share a r)
unfolding bounded_share
bounded_share-IsShare a r pos small = elim (Bool-cases (r.num == 0)) [
  | inl e ↦
      let none_back : min r.num r.den ≡ 0 = ground arith in
      rw (e, none_back) (omega arith, omega arith)
  | inr e ↦ elim (Bool-cases (leb r.den r.num)) [
    | inl f ↦
        let all_back : min r.num r.den ≡ r.den = ground arith in
        rw (e, f, all_back) (omega arith, omega arith)
    | inr f ↦
        let part : min r.num r.den ≡ r.num = ground arith in
        rw (e, f, part) (round_product-IsClose a r.num r.den (ground arith) small)
  ]
]
