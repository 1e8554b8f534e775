-- ===== src/Commission/Rules.antt =====
-- src/commission/commission.service.ts: the choice of the commission rule of an order.
-- A weight is in thousandths, as `toFixed(3)` and the decimal columns have it.
use buchuqin_api.Prelude.{
  ℕ, suc, Bool, true, false, List, [], ◌∷◌, Option, none, some, ◌==◌, ◌||◌, ◌&&◌, not, ltb,
  if◌then◌else◌, opt_eq, is_some,
}
use buchuqin_api.Store.Rows.{DeliveryMode, instant, scheduled}

abbrev pub mode_code : DeliveryMode → ℕ
mode_code instant = 0
mode_code scheduled = 1

abbrev pub commission_per_order : ℕ
commission_per_order = 300

-- `CommissionDims`
pub record CommissionDims : Type 0 where
  pub building_id : Option ℕ
  pub building_name : Option ℕ
  pub floor : Option ℕ
  pub weight : Option ℕ
  pub mode : Option DeliveryMode

-- `RuleLike`
pub record CommissionRule : Type 0 where
  pub building_id : Option ℕ
  pub floor : Option ℕ
  pub weight_from : Option ℕ
  pub weight_to : Option ℕ
  pub mode : Option DeliveryMode
  pub price : ℕ
  pub version : ℕ

-- `a != null && a !== b && a !== c`
abbrev pub differs_from_both : Option ℕ → Option ℕ → Option ℕ → Bool
differs_from_both none b c = false
differs_from_both (some a) b c = not (opt_eq (some a) b) && not (opt_eq (some a) c)

abbrev pub differs_from : Option ℕ → Option ℕ → Bool
differs_from none b = false
differs_from (some a) b = not (opt_eq (some a) b)

abbrev pub is_below : Option ℕ → Option ℕ → Bool
is_below none weight = false
is_below (some from_) none = true
is_below (some from_) (some weight) = ltb weight from_

abbrev pub is_above : Option ℕ → Option ℕ → Bool
is_above none weight = false
is_above (some to) none = true
is_above (some to) (some weight) = ltb to weight

abbrev pub mode_number : Option DeliveryMode → Option ℕ
mode_number none = none
mode_number (some m) = some (mode_code m)

abbrev pub count_true : List Bool → ℕ
count_true [] = 0
count_true (b ∷ bs) = let rest = count_true bs in if b then suc rest else rest

-- `ruleSpecificity`; `none` is the source's -1.
unfoldable pub rule_specificity : CommissionRule → CommissionDims → Option ℕ
rule_specificity rule dims =
    if differs_from_both rule.building_id dims.building_id dims.building_name
      || differs_from rule.floor dims.floor
      || is_below rule.weight_from dims.weight
      || is_above rule.weight_to dims.weight
      || differs_from (mode_number rule.mode) (mode_number dims.mode)
    then none
    else some (
        count_true (
          is_some rule.building_id
          ∷ is_some rule.floor
          ∷ (is_some rule.weight_from || is_some rule.weight_to)
          ∷ is_some rule.mode
          ∷ []))

-- The best rule so far, with its score.
abbrev pub Best : Type 0
Best = Option (CommissionRule × ℕ)

-- One round of the loop of `bestMatch`.
take_better : Best → CommissionRule → ℕ → Best
take_better none rule score = some (rule, score)
take_better (some (best, best_score)) rule score =
    if ltb best_score score || (score == best_score && ltb best.version rule.version)
    then some (rule, score)
    else some (best, best_score)

unfoldable pub consider : Best → CommissionRule → Option ℕ → Best
unfolding take_better
consider best rule none = best
consider best rule (some score) = take_better best rule score

unfoldable pub best_from : CommissionDims → Best → List CommissionRule → Best
best_from dims best [] = best
best_from dims best (rule ∷ rules) =
    best_from dims (consider best rule (rule_specificity rule dims)) rules

abbrev pub rule_of : Best → Option CommissionRule
rule_of none = none
rule_of (some (rule, _)) = some rule

-- `bestMatch`
unfoldable pub best_match : List CommissionRule → CommissionDims → Option CommissionRule
unfolding best_from
best_match rules dims = rule_of (best_from dims none rules)

-- The snapshot of `priceFor`, from the active rules of the campus.
pub record PriceSnapshot : Type 0 where
  pub amount : ℕ
  pub rule_version : Option ℕ
  pub fallback : Bool

snapshot_of : Option CommissionRule → PriceSnapshot
snapshot_of none = record { amount = commission_per_order; rule_version = none; fallback = true }
snapshot_of (some rule) = record {
  amount = rule.price;
  rule_version = some rule.version;
  fallback = false;
}

-- `priceFor`
unfoldable pub price_for : List CommissionRule → CommissionDims → PriceSnapshot
unfolding snapshot_of best_match
price_for rules dims = snapshot_of (best_match rules dims)
