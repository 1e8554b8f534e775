-- ===== src/Business/Cost.antt =====
-- src/business/business.service.ts, `pay`: the cost that a paid line is booked with.
use buchuqin_api.Prelude.{ℕ, ◌+◌, List, [], ◌∷◌, Option, none, some, ◌==◌, leb}
use buchuqin_api.Common.ProductUnits.{per_retail_unit_cost_fen}
use buchuqin_api.Store.{Db, Tx, ◌>>=◌, ◌>>◌, pure, read, require, expect, bad_request}
use buchuqin_api.Store.Table.{find_first}
use buchuqin_api.Store.Rows.{ProcurementMode, CostSource, Product, OrderLine}

-- The three-way choice of `unitGrossCost`; `none` is a missing local price, or the exception of the
-- old computation on a case without content.
unfoldable pub unit_gross_cost : Option ProcurementMode → Product → Option ℕ
unfolding per_retail_unit_cost_fen
unit_gross_cost (some ProcurementMode.local) p = p.local_purchase_price
unit_gross_cost (some ProcurementMode.hq) p = some p.wholesale_price
unit_gross_cost none p = per_retail_unit_cost_fen p.wholesale_price p.units_per_case

unfoldable pub cost_source : Option ProcurementMode → CostSource
cost_source (some ProcurementMode.local) = CostSource.local
cost_source (some ProcurementMode.hq) = CostSource.hq
cost_source none = CostSource.legacy

abbrev pub find_product : ℕ → Db → Option Product
find_product id db = find_first (λ (p : Product). p.id == id) db.products

-- The line with its costs.
unfoldable pub costed : OrderLine → Product → ℕ → ℕ → OrderLine
unfolding cost_source
costed l p gross purchase = record l {
  unit_gross_cost = some gross;
  cost_source = some (cost_source p.procurement_mode);
  unit_wholesale_cost = some gross;
  unit_purchase_cost = some purchase;
  units_per_case = some p.units_per_case;
}

-- One round of the loop over the lines, from the product that was found: the stock check and the cost
-- snapshot.
unfoldable pub snapshot_of : OrderLine → Product → Tx OrderLine
unfolding unit_gross_cost costed
snapshot_of l p = do
  require (leb (l.quantity + p.locked_stock) p.stock) (bad_request "库存不足")
  gross ← expect (unit_gross_cost p.procurement_mode p) (bad_request "未填写本地进货价")
  purchase ←
      expect (per_retail_unit_cost_fen p.cost_price p.units_per_case)
        (bad_request "每件含量必须是 >=1 的整数")
  pure (costed l p gross purchase)

unfoldable pub snapshot_line : OrderLine → Tx OrderLine
unfolding snapshot_of
snapshot_line l = do
  found ← read (find_product l.product_id)
  p ← expect found (bad_request "库存不足")
  snapshot_of l p

unfoldable pub snapshot_lines : List OrderLine → Tx (List OrderLine)
unfolding snapshot_line
snapshot_lines [] = pure []
snapshot_lines (l ∷ ls) = do l' ← snapshot_line l; ls' ← snapshot_lines ls; pure (l' ∷ ls')
