-- ===== src/Tests/Basics.antt =====
-- The shared rules and the commissions, on small inputs.
use buchuqin_api.Prelude.{◌≡◌, refl, false, [], ◌∷◌, none, some, arith, pos}
use buchuqin_api.Common.ProductUnits.{case_to_retail_units, retail_units_to_cases}
use buchuqin_api.Common.Double.{divide, times, round, half_even, digits}
use buchuqin_api.Store.{Db, transaction}
use buchuqin_api.Store.Rows.{instant, Commission, CommissionKind, CommissionStatus}
use buchuqin_api.Commission.Rules.{
  CommissionDims, CommissionRule, best_match, consider, rule_specificity,
}
use buchuqin_api.Commission.Match.{IsBest, best_match-IsBest}
use buchuqin_api.Commission.Adjust.{Ratio, bounded_share}
use buchuqin_api.Commission.Record.{record_for_delivered}
use buchuqin_api.Commission.Record.Laws.{
  KeyIsUnique, IsSettled, commissions_after, record_for_delivered_once,
}
use buchuqin_api.Tests.Sample.{shop, order}

three_cases : case_to_retail_units 12 3 ≡ some 36
unfolding case_to_retail_units
three_cases = refl

four_cases : retail_units_to_cases 12 37 ≡ some 4
unfolding retail_units_to_cases
four_cases = refl

abbrev dims : CommissionDims
dims = record {
  building_id = some 4;
  building_name = none;
  floor = some 2;
  weight = some 1500;
  mode = some instant;
}

abbrev any_rule : CommissionRule
any_rule = record {
  building_id = none;
  floor = none;
  weight_from = none;
  weight_to = none;
  mode = none;
  price = 300;
  version = 1;
}

abbrev building_rule : CommissionRule
building_rule = record any_rule { building_id = some 4; price = 350 }

best_match-IsBest_example :
    IsBest dims (any_rule ∷ building_rule ∷ []) (best_match (any_rule ∷ building_rule ∷ []) dims)
best_match-IsBest_example = best_match-IsBest (any_rule ∷ building_rule ∷ []) dims

best_match_building : best_match (any_rule ∷ building_rule ∷ []) dims ≡ some building_rule
unfolding best_match consider rule_specificity
best_match_building = refl

no_row : KeyIsUnique []
no_row = λ o s k. omega arith

record_for_delivered_once_example :
    KeyIsUnique (commissions_after 5 order shop)
    × IsSettled order shop (commissions_after 5 order shop)
    × (commissions_after 5 order (transaction (record_for_delivered 5 order) shop)
        ≡ commissions_after 5 order shop)
record_for_delivered_once_example = record_for_delivered_once 5 order shop no_row

abbrev half : Ratio
half = record { num = 1; den = 2 }

abbrev earned : Commission
earned = record {
  staff_id = 11;
  order_id = 31;
  campus_id = 2;
  amount = pos 300;
  kind = CommissionKind.commission;
  status = CommissionStatus.pending;
  fallback = false;
  period = 5;
  remark = "";
}

abbrev earned_shop : Db
earned_shop = record shop { commissions = earned ∷ [] }

-- The quotient of 2300 and 4000 is a little less than 0.575 as a number of JavaScript.
rounded_down : bounded_share 100 (record { num = 2300; den = 4000 }) ≡ 57
unfolding bounded_share divide times round half_even digits
rounded_down = refl
