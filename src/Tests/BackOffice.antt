-- ===== src/Tests/BackOffice.antt =====
-- The back office on the small shop: refunds, the stock room and the stock by hand.
use buchuqin_api.Prelude.{
  map, ℕ, ◌+◌, ◌≤◌, ◌≡◌, refl, true, false, List, [], ◌∷◌, none, some, arith, pos, negsuc,
}
use buchuqin_api.Common.Status.{Status}
use buchuqin_api.Common.RefundAmount.{pre_delivery}
use buchuqin_api.Store.{has_order_id, Db, Outcome, ok, thrown, transaction}
use buchuqin_api.Store.Holds.{Holds, IsThrown}
use buchuqin_api.Store.Table.{Pairs, count_where}
use buchuqin_api.Store.Rows.{Order, Refund, TxnKind}
use buchuqin_api.Business.Limits.{line_quantity}
use buchuqin_api.Business.Pay.{sell_lines}
use buchuqin_api.Business.Refunds.{refund_item}
use buchuqin_api.Business.Refunds.Laws.{reserved}
use buchuqin_api.Business.Advance.{outbound_read}
use buchuqin_api.Business.Advance.Laws.{booked_out, outbound_read-booked_out, outbound_read_once}
use buchuqin_api.Commission.Record.Laws.{IsSettled}
use buchuqin_api.Admin.Refunds.Finish.{finish_tx, restore_stock}
use buchuqin_api.Admin.Refunds.Audit.{approve_tx}
use buchuqin_api.Admin.Refunds.Create.{create_tx}
use buchuqin_api.Admin.Refunds.Restock.{IsGivenBack, is_product, sell_lines-restore_stock}
use buchuqin_api.Admin.Refunds.Laws.{finish_tx-twice}
use buchuqin_api.Admin.Refunds.Ceiling.{
  IsWithin, approve_tx-IsWithin, create_tx-IsWithin, approve_tx-IsThrown,
}
use buchuqin_api.Admin.Orders.{advance_order, order_action, update_order_status, update_read}
use buchuqin_api.Admin.Orders.Actions.{order_action-ByAction}
use buchuqin_api.Admin.Orders.Edges.{ByAction}
use buchuqin_api.Admin.Orders.Manual.{ByHand, update_order_status-ByHand, update_read-IsSettled}
use buchuqin_api.Admin.Inventory.Laws.{Change, bring, adjust, count, run, run-IsBalanced}
use buchuqin_api.Admin.Inventory.Ledger.{IsBalanced}
use buchuqin_api.Common.Timeline.{StepKey}
use buchuqin_api.Business.Timers.{auto_complete_delivered_orders, auto_outbound_paid_orders}
use buchuqin_api.Business.Timers.Departures.{Departs}
use buchuqin_api.Business.Timers.Laws.{Completes, timers-Departs}
use buchuqin_api.Tests.Sample.{step, line, shop, shop_with, order_in, product, refund}

abbrev db_of {ℓ} : {A : Type ℓ} → Outcome A → Db
db_of (ok a db) = db
db_of (thrown e) = shop

-- The order in the stock room, and on its way.
abbrev paid_order : Order
paid_order = order_in Status.paid none

abbrev on_way : Order
on_way = order_in Status.first_mile (some 11)

abbrev left_shop : Db
left_shop = db_of (outbound_read 7 paid_order (shop_with paid_order))

outbound_runs : outbound_read 7 paid_order (shop_with paid_order) ≡ ok tt left_shop
unfolding outbound_read
outbound_runs = refl

outbound_read_once_example :
    IsThrown (outbound_read 8 (record paid_order { status = Status.picking }) left_shop)
outbound_read_once_example =
    outbound_read_once 7 8 paid_order (record paid_order { status = Status.picking })
      (shop_with paid_order) left_shop (omega arith) refl outbound_runs

outbound_read-booked_out_example :
    Holds
      (λ d. booked_out 21 d ≡ booked_out 21 (shop_with paid_order) + line_quantity 21 (line ∷ []))
      (outbound_read 7 paid_order (shop_with paid_order))
outbound_read-booked_out_example =
    outbound_read-booked_out 7 paid_order (shop_with paid_order) 21 refl

one_product : (id : ℕ) → count_where (is_product id) (product ∷ []) ≤ 1
one_product id = ground arith

sell_lines-restore_stock_example :
    Holds
      (λ d.
        Holds
          (λ e. Pairs (IsGivenBack (line ∷ [])) (product ∷ []) e.products)
          (restore_stock paid_order paid_order d))
      (sell_lines (line ∷ []) (shop_with paid_order))
sell_lines-restore_stock_example =
    sell_lines-restore_stock paid_order paid_order (shop_with paid_order) refl one_product

-- The refund of a delivered order, asked for.
abbrev done_order : Order
done_order = order_in Status.delivered (some 11)

abbrev asked_shop : Db
asked_shop = record (shop_with done_order) { refunds = refund ∷ [] }

finish_tx-twice_example :
    Holds (λ d. finish_tx refund done_order d ≡ ok none d) (finish_tx refund done_order asked_shop)
finish_tx-twice_example = finish_tx-twice refund done_order asked_shop

approve_tx-IsWithin_example :
    Holds
      (IsWithin refund done_order true)
      (approve_tx refund done_order true ((21, 400) ∷ []) asked_shop)
approve_tx-IsWithin_example =
    approve_tx-IsWithin refund done_order true ((21, 400) ∷ []) asked_shop refl (omega arith)

create_tx-IsWithin_example :
    Holds
      (λ d. reserved 31 d ≤ 1100)
      (create_tx done_order (refund_item line ∷ []) (shop_with done_order))
create_tx-IsWithin_example =
    create_tx-IsWithin done_order (refund_item line ∷ []) (shop_with done_order)

-- The refund of a whole order under way.
abbrev whole : Refund
whole = record refund { source = pre_delivery; amount = 1000; items = [] }

abbrev whole_shop : Db
whole_shop = record (shop_with on_way) { refunds = whole ∷ [] }

approve_tx-IsThrown_example : IsThrown (approve_tx whole on_way false [] whole_shop)
approve_tx-IsThrown_example =
    approve_tx-IsThrown whole on_way [] whole_shop refl refl refl (omega arith) (omega arith)

order_action-ByAction_example :
    Pairs
      (ByAction advance_order)
      (paid_order ∷ [])
      (transaction (order_action 7 31 advance_order none) (shop_with paid_order)).orders
order_action-ByAction_example = order_action-ByAction 7 31 advance_order none (shop_with paid_order)

update_order_status-ByHand_example :
    Pairs
      (ByHand Status.delivered)
      (on_way ∷ [])
      (transaction
        (update_order_status 7 5 31 Status.delivered true none)
        (shop_with on_way)).orders
update_order_status-ByHand_example =
    update_order_status-ByHand 7 5 31 Status.delivered true none (shop_with on_way)

update_read-IsSettled_example :
    Holds
      (λ d.
        (true ≡ true)
        × IsSettled (record on_way { status = Status.delivered }) (shop_with on_way) d.commissions)
      (update_read 7 5 Status.delivered true on_way (shop_with on_way))
update_read-IsSettled_example =
    update_read-IsSettled 7 5 Status.delivered true on_way (shop_with on_way) refl refl

abbrev changes : List Change
changes =
    bring true 2 21 5 ∷ adjust 2 21 (negsuc 3) ∷ adjust 2 21 (negsuc 90) ∷ count 2 21 (pos 9) ∷ []

run-IsBalanced_example : IsBalanced shop (run changes shop)
run-IsBalanced_example = run-IsBalanced changes shop λ id. ground arith

run-changes : (run changes shop).inventory_txns ≡ (
    record { product_id = 21; kind = TxnKind.stock_in; delta = pos 5 }
    ∷ record { product_id = 21; kind = TxnKind.adjust; delta = negsuc 3 }
    ∷ record { product_id = 21; kind = TxnKind.adjust; delta = negsuc 1 }
    ∷ [])
unfolding run
run-changes = refl

-- A paid order and a delivered one, long after.
abbrev timers_shop : Db
timers_shop = record shop {
  orders =
      record paid_order { paid_at = some 950 }
      ∷ record done_order {
        id = 32;
        timeline = record (step StepKey.last_mile) { done = true; time = some 1000 } ∷ [];
      }
      ∷ [];
}

two_orders : (id : ℕ) → count_where (has_order_id id) timers_shop.orders ≤ 1
two_orders id = ground arith

timers-Departs_example :
    Pairs Completes timers_shop.orders (auto_complete_delivered_orders 172900000 timers_shop).orders
    × Pairs
        (Departs 172900000 timers_shop.campuses)
        timers_shop.orders
        (auto_outbound_paid_orders 172900000 timers_shop).orders
timers-Departs_example = timers-Departs 172900000 timers_shop two_orders

timers-Status :
    (map (λ (o : Order). o.status) (auto_complete_delivered_orders 172900000 timers_shop).orders
      ≡ Status.paid ∷ Status.completed ∷ [])
    × (map (λ (o : Order). o.status) (auto_outbound_paid_orders 172900000 timers_shop).orders
        ≡ Status.waiting_first_mile ∷ Status.delivered ∷ [])
unfolding auto_complete_delivered_orders auto_outbound_paid_orders
timers-Status = (refl, refl)
