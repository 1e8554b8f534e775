-- ===== src/Admin/Refunds/Finish.antt =====
-- src/admin/admin.service.ts, `finishRefund`: what is booked when the money of a refund is back.
-- The columns that only record who did it and when are left out, and so is the audit log.
use Prim.Native.String.{String}
use buchuqin_api.Prelude.{
  ℕ, ◌+◌, ◌-◌, Bool, true, false, List, [], ◌∷◌, Option, none, some, ◌==◌, ◌||◌, ◌&&◌, not, leb,
  if◌then◌else◌,
}
use buchuqin_api.Common.Status.{Status, is_status, order_status_text}
use buchuqin_api.Common.RefundAmount.{RefundSource, pre_delivery, refund_restore_target}
use buchuqin_api.Store.{
  Tx, ◌>>=◌, ◌>>◌, pure, read, write, expect, when, won, bad_request, not_found, update_orders,
  find_order, has_order_id,
}
use buchuqin_api.Store.Request.{Run, done, commit}
use buchuqin_api.Store.Table.{find_first, count_where, sum_where, update_many}
use buchuqin_api.Store.Rows.{
  Order, OrderLine, Product, ProcurementMode, CostSource, Refund, RefundStatus,
}
use buchuqin_api.Business.Refunds.{is_reserved, refund_amount, has_refund_id, refund_status_code}
use buchuqin_api.Business.Orders.{release_coupon}
use buchuqin_api.Commission.Adjust.{Ratio, refund_adjust}

abbrev pub is_pre : RefundSource → Bool
is_pre pre_delivery = true
is_pre _ = false

-- `statusText` of a state that an order goes back to.
abbrev pub text_of : Status → String
text_of s = elim (order_status_text s) [ none ↦ "已送达寝室" | some t ↦ t ]

-- The state and the text of an order whose refund ended without payment, or paid back a part.
abbrev pub go_back : Status → Order → Order
go_back before o = record o {
  status = refund_restore_target before;
  status_text = text_of (refund_restore_target before);
}

abbrev pub close_refunded : Order → Order
close_refunded o = record o { status = Status.refunded; status_text = "已退款" }

-- `patchData`
abbrev pub patch_order : Bool → Status → Order → Order
patch_order full before o = if full then close_refunded o else go_back before o

-- `!soldAs || soldAs === 'LEGACY' || soldAs === currentMode.get(productId)`
abbrev pub is_same_source : Option CostSource → Option ProcurementMode → Bool
is_same_source none m = true
is_same_source (some CostSource.legacy) m = true
is_same_source (some CostSource.hq) (some ProcurementMode.hq) = true
is_same_source (some CostSource.local) (some ProcurementMode.local) = true
is_same_source _ m = false

abbrev pub is_restocked : OrderLine → Product → Bool
is_restocked l p = (p.id == l.product_id) && is_same_source l.cost_source p.procurement_mode

abbrev pub take_back : OrderLine → Product → Product
take_back l p = record p { stock = p.stock + l.quantity; returned = p.returned + l.quantity }

-- The loop over the lines of the order.
unfoldable pub restock : List OrderLine → List Product → List Product
restock [] ps = ps
restock (l ∷ ls) ps = restock ls (update_many (is_restocked l) (take_back l) ps)

abbrev pub mark_restored : Order → Order
mark_restored o = record o { stock_restored = true }

-- The stock of an order goes back once; `o` is the order as it was read first, `current` in the transaction.
unfoldable pub restore_stock : Order → Order → Tx (Unit {0})
unfolding restock
restore_stock o current = when (not current.stock_restored) (
    write λ db. record db {
      products = restock o.items db.products;
      orders = update_many (has_order_id o.id) mark_restored db.orders;
    })

unfoldable pub give_back : Order → Order → Tx (Unit {0})
unfolding restore_stock release_coupon
give_back o current = restore_stock o current >> release_coupon o.coupon_id

abbrev pub is_refunded : ℕ → Refund → Bool
is_refunded order_id r = (r.order_id == order_id) && (refund_status_code r.status == 3)

-- `feeRefunds`
abbrev pub is_with_fee : ℕ → Refund → Bool
is_with_fee order_id r = is_reserved order_id r && r.fee_included

-- `totalRefunded >= fullRefundCeiling`
unfoldable pub is_full : Order → ℕ → ℕ → Bool
is_full o fee_refunds total =
    if fee_refunds == 0
    then leb o.payable_amount (total + o.delivery_fee)
    else leb o.payable_amount total

-- `status: { in: ['after-sales', currentOrder.status] }`
abbrev pub is_open : Order → Order → Bool
is_open current x =
    (x.id == current.id)
    && (is_status x.status Status.after_sales || is_status x.status current.status)

abbrev pub mark_refunded : Refund → Refund
mark_refunded r = record r { status = RefundStatus.refunded }

-- The writes, once it is known whether the refund is full.
unfoldable pub book_refund : Refund → Order → Order → Bool → Tx (Unit {0})
unfolding give_back
book_refund refund o current full = do
  n ← update_orders (is_open current) (patch_order full refund.before_status)
  won n (bad_request "订单状态已变化，请刷新")
  write
      (λ db. record db { refunds = update_many (has_refund_id refund.id) mark_refunded db.refunds })
  when (is_pre refund.source && full) (give_back o current)

-- A refund that is not booked yet, with what was paid back before; the sum of both is given.
unfoldable pub finish_current : Refund → Order → Refund → ℕ → ℕ → Tx (Option ℕ)
unfolding book_refund is_full
finish_current refund o row fee_refunds before = do
  found ← read (find_order o.id)
  current ← expect found (not_found "订单不存在")
  book_refund refund o current (is_pre row.source || is_full o fee_refunds (before + row.amount))
  pure (some (before + row.amount))

abbrev pub is_done : Refund → Bool
is_done r = refund_status_code r.status == 3

-- The transaction of `finishRefund`; nothing is given where another request has booked the refund.
unfoldable pub finish_tx : Refund → Order → Tx (Option ℕ)
unfolding finish_current
finish_tx refund o = do
  found ← read (λ db. find_first (has_refund_id refund.id) db.refunds)
  row ← expect found (not_found "退款申请不存在")
  fee_refunds ← read (λ db. count_where (is_with_fee o.id) db.refunds)
  before ← read (λ db. sum_where (is_refunded o.id) refund_amount db.refunds)
  if is_done row then pure none else finish_current refund o row fee_refunds before

-- `goodsPaid > 0 ? totalRefunded / goodsPaid : 1`
unfoldable pub refund_ratio : Order → ℕ → Ratio
refund_ratio o total =
    let goods = o.payable_amount - o.delivery_fee in
    if goods == 0 then record { num = 1; den = 1 } else record { num = total; den = goods }

-- The transaction on the commissions that follows.
unfoldable pub adjust_after : ℕ → Refund → Order → Option ℕ → Run
unfolding refund_ratio refund_adjust
adjust_after period refund o none = done
adjust_after period refund o (some total) =
    if is_pre refund.source
    then done
    else commit (refund_adjust period o.id "售后退款冲回" (refund_ratio o total)) λ _. done

-- `finishRefund` behind the read of the order.
unfoldable pub finish_read : ℕ → Refund → Order → Run
unfolding finish_tx adjust_after
finish_read period refund o =
    if is_done refund then done else commit (finish_tx refund o) (adjust_after period refund o)

-- `finishRefund`. A row that the database does not find is `not_found`, which is no exception of the
-- framework there.
unfoldable pub finish_refund : ℕ → Refund → Run
unfolding finish_read
finish_refund period refund =
    commit (read (find_order refund.order_id) >>= λ found. expect found (not_found "订单不存在"))
      (finish_read period refund)
