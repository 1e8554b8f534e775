-- ===== src/Common/ProductUnits.antt =====
-- src/common/product-units.ts: retail units against cases. The arguments are whole numbers that are not
-- negative, so of the checks only the one on the content of a case is left; `none` is the exception.
use buchuqin_api.Prelude.{
  ℕ, zero, suc, ◌+◌, ◌-◌, ◌*◌, ◌/◌, ◌≤◌, ◌<◌, ◌≡◌, Option, none, some, arith,
}
use native.Mathlib.Nat.{div-eq_of_lt-le, div-mul-le_self, lt-div-mul-add}
use mathlib.Core.Option.{some-injective}

-- `caseToRetailUnits`
unfoldable pub case_to_retail_units : ℕ → ℕ → Option ℕ
case_to_retail_units zero case_qty = none
case_to_retail_units (suc n) case_qty = some (case_qty * suc n)

-- `retailUnitsToCases`: `Math.ceil(retailQty / unitsPerCase)`
unfoldable pub retail_units_to_cases : ℕ → ℕ → Option ℕ
retail_units_to_cases zero retail_qty = none
retail_units_to_cases (suc n) retail_qty = some ((retail_qty + n) / suc n)

-- `perRetailUnitCostFen`: `Math.floor(caseCostFen / unitsPerCase)`
unfoldable pub per_retail_unit_cost_fen : ℕ → ℕ → Option ℕ
per_retail_unit_cost_fen case_cost zero = none
per_retail_unit_cost_fen case_cost (suc n) = some (case_cost / suc n)

round_trip : (n q : ℕ) → (q * suc n + n) / suc n ≡ q
round_trip n q = div-eq_of_lt-le (suc n) (omega arith) (omega arith)

-- Cases that are unpacked into retail units are counted as the same number of cases again.
pub retail_units_to_cases-case_to_retail_units :
    (units q r : ℕ) → case_to_retail_units units q ≡ some r → retail_units_to_cases units r ≡ some q
unfolding case_to_retail_units retail_units_to_cases
retail_units_to_cases-case_to_retail_units zero q r e = cc
retail_units_to_cases-case_to_retail_units (suc n) q r e =
    rw (← some-injective _ _ e, round_trip n q)

one_less : (q n r : ℕ) → q * suc n ≤ r + n → 0 < r → (q - 1) * suc n < r
one_less zero n r h pos_ = omega arith
one_less (suc q) n r h pos_ = let e : suc q - 1 ≡ q = omega arith in rw e (omega arith)

-- The number of cases holds the retail units, and one case less would not.
pub retail_units_to_cases_bounds :
    (units r c : ℕ)
    → retail_units_to_cases units r ≡ some c
    → (r ≤ c * units) × (0 < r → (c - 1) * units < r)
unfolding retail_units_to_cases
retail_units_to_cases_bounds zero r c e = cc
retail_units_to_cases_bounds (suc n) r c e =
    let same : (r + n) / suc n ≡ c = some-injective _ _ e in
    let low : (r + n) / suc n * suc n ≤ r + n = div-mul-le_self (r + n) (suc n) in
    let high : r + n < (r + n) / suc n * suc n + suc n = lt-div-mul-add (omega arith) in
    rw (← same) (omega arith, λ h. one_less ((r + n) / suc n) n r low h)
