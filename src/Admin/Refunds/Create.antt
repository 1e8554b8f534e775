-- ===== src/Admin/Refunds/Create.antt =====
-- src/admin/admin.service.ts: refunds that the back office opens (`createUnshippedFullRefund`,
-- `createAndApproveRefund`), and what the payment service says later (`reconcileWechatRefundStatus`,
-- `syncRefund`).
use buchuqin_api.Prelude.{
  take, keep, length, ℕ, ◌+◌, ◌*◌, Bool, true, false, List, [], ◌∷◌, ◌++◌, Option, none, some, ◌==◌,
  ◌||◌, ◌&&◌, not, leb, if◌then◌else◌, is_some,
}
use buchuqin_api.Common.Status.{Status, is_status, includes}
use buchuqin_api.Common.RefundAmount.{
  RefundSource, pre_delivery, after_sale, pre_delivery_refundable,
}
use buchuqin_api.Store.{
  Db, Tx, ◌>>=◌, ◌>>◌, pure, read, require, expect, won, ok, bad_request, not_found, unavailable,
  update_orders, find_order, discard,
}
use buchuqin_api.Store.Request.{Run, done, commit}
use buchuqin_api.Store.Table.{count_where, sum_where}
use buchuqin_api.Store.Rows.{Order, Refund, RefundItem, RefundStatus}
use buchuqin_api.Business.Refunds.{
  is_reserved, refund_amount, refund_status_code, is_as_read, hold_order, items_amount,
  parse_refund_items,
}
use buchuqin_api.Admin.Refunds.Finish.{finish_refund, is_done}
use buchuqin_api.Admin.Refunds.Audit.{
  Reply, in_scope, set_refund, restore_order_admin, audit_refund, read_refund, approve,
  is_within_total,
}

-- `status: { in: ['pending', 'approved', 'refunding'] }`
abbrev pub is_going : ℕ → Refund → Bool
is_going order_id r = (r.order_id == order_id) && leb (refund_status_code r.status) 2

-- `refund.create`
unfoldable pub insert_refund : Order → RefundSource → ℕ → Status → Bool → List RefundItem → Tx ℕ
insert_refund o source amount before fee items db = ok db.next_id (record db {
  refunds =
      db.refunds
      ++ (record {
        id = db.next_id;
        user_id = o.user_id;
        order_id = o.id;
        source = source;
        amount = amount;
        before_status = before;
        status = RefundStatus.pending;
        fee_included = fee;
        items = items;
      }
          ∷ []);
  next_id = db.next_id + 1;
})

-- `createUnshippedFullRefund`; `has_remark` is whether the remark has more than blanks.
unfoldable pub create_unshipped : Order → Bool → Tx ℕ
unfolding insert_refund
create_unshipped o has_remark = do
  require has_remark (bad_request "请填写退款原因")
  going ← read (λ db. count_where (is_going o.id) db.refunds)
  require (going == 0) (bad_request "该订单已有进行中的退款申请")
  require (leb 1 o.product_amount) (bad_request "商品金额异常，无法发起整单退款")
  insert_refund o pre_delivery o.product_amount o.status false []

-- The amounts that the operator sets; an item without one keeps the price of its line.
abbrev pub amount_for : ℕ → List (ℕ × ℕ) → Option ℕ
amount_for id [] = none
amount_for id (a ∷ as') =
    let rest = amount_for id as' in
    if is_some rest then rest else if a.0 == id then some a.1 else none

abbrev pub fits : RefundItem → Option ℕ → Bool
fits i none = true
fits i (some n) = leb n (i.unit_price * i.quantity)

abbrev pub priced_item : RefundItem → Option ℕ → RefundItem
priced_item i none = i
priced_item i (some n) = record i { amount = n }

unfoldable pub set_prices : List (ℕ × ℕ) → List RefundItem → Tx (List RefundItem)
set_prices amounts [] = pure []
set_prices amounts (i ∷ is) = do
  require (fits i (amount_for i.product_id amounts)) (bad_request "金额超出该行上限")
  rest ← set_prices amounts is
  pure (priced_item i (amount_for i.product_id amounts) ∷ rest)

-- `total + already > refundCeiling(payable, fee, true)`, negated.
abbrev pub reserved_on : ℕ → Db → ℕ
reserved_on id db = sum_where (is_reserved id) refund_amount db.refunds

unfoldable pub check_ceiling : Order → ℕ → Tx (Unit {0})
unfolding is_within_total
check_ceiling o total = do
  already ← read (reserved_on o.id)
  require (is_within_total o true (total + already)) (bad_request "超出可退上限")

-- `beforeStatus`: empty for an order in after-sales.
abbrev pub before_of : Order → Status
before_of o = if is_status o.status Status.after_sales then Status.other else o.status

-- The transaction of `createAndApproveRefund`.
unfoldable pub create_tx : Order → List RefundItem → Tx ℕ
unfolding check_ceiling insert_refund
create_tx o items = do
  n ← update_orders (is_as_read o) (hold_order "部分退款中")
  won n (bad_request "订单状态已变化，请刷新")
  check_ceiling o (items_amount items)
  insert_refund o after_sale (items_amount items) (before_of o) true items

abbrev pub no_ids : List ℕ → Bool
no_ids [] = true
no_ids (x ∷ xs) = false

-- The items of a refund by lines, after all checks in front of the transaction.
unfoldable pub check_create : Option Reply → Order → List ℕ → List (ℕ × ℕ) → Tx (List RefundItem)
unfolding parse_refund_items set_prices check_ceiling
check_create reply o product_ids amounts = do
  require (includes (Status.delivered ∷ Status.completed ∷ Status.after_sales ∷ []) o.status)
      (bad_request "仅送达后的订单支持按商品退款")
  require (not (no_ids product_ids)) (bad_request "请勾选退款商品")
  parsed ← parse_refund_items o.items product_ids []
  items ← set_prices amounts parsed
  require (leb 1 (items_amount items)) (bad_request "退款金额必须至少为 0.01 元")
  check_ceiling o (items_amount items)
  require (is_some reply) (unavailable "支付服务未就绪，无法发起退款")
  pure items

-- `createAndApproveRefund`, from the order as it was read on.
unfoldable pub create_and_approve :
    ℕ → Option Reply → Option ℕ → Order → List ℕ → List (ℕ × ℕ) → Bool → Run
unfolding create_unshipped check_create create_tx audit_refund
create_and_approve period reply scope o product_ids amounts has_remark =
    if includes pre_delivery_refundable o.status
    then commit (create_unshipped o has_remark) (λ _. done)
    else commit (check_create reply o product_ids amounts)
        λ items. commit (create_tx o items) λ id. audit_refund period reply id approve scope none []

unfoldable pub create_and_approve_refund :
    ℕ → Option Reply → Option ℕ → ℕ → List ℕ → List (ℕ × ℕ) → Bool → Run
unfolding create_and_approve
create_and_approve_refund period reply scope id product_ids amounts has_remark =
    commit (read (find_order id)) λ found. commit (expect found (not_found "订单不存在")) λ o.
      commit (require (in_scope scope o) (not_found "订单不存在"))
        λ _. create_and_approve period reply scope o product_ids amounts has_remark

-- What a query of the payment service, or its callback, says of a refund.
pub data WxStatus : Type 0 where
  success processing closed abnormal other : WxStatus

abbrev pub is_held_or : Order → Order → Bool
is_held_or o x =
    (x.id == o.id) && (is_status x.status o.status || is_status x.status Status.after_sales)

-- `PROCESSING`
unfoldable pub keep_processing : Refund → Order → Tx (Unit {0})
keep_processing r o = do
  discard (update_orders (is_held_or o) (hold_order "退款处理中"))
  set_refund r.id RefundStatus.refunding

-- `CLOSED` and `ABNORMAL`
unfoldable pub mark_failed : Refund → Tx (Unit {0})
unfolding restore_order_admin
mark_failed r = do
  set_refund r.id RefundStatus.failed
  restore_order_admin r.order_id r.before_status

unfoldable pub reconcile_open : ℕ → WxStatus → Refund → Order → Run
unfolding finish_refund keep_processing mark_failed
reconcile_open period success r o = finish_refund period r
reconcile_open period processing r o = commit (keep_processing r o) λ _. done
reconcile_open period closed r o = commit (mark_failed r) λ _. done
reconcile_open period abnormal r o = commit (mark_failed r) λ _. done
reconcile_open period other r o = done

unfoldable pub reconcile_read : ℕ → WxStatus → Refund → Order → Run
unfolding reconcile_open
reconcile_read period wx r o = if is_done r then done else reconcile_open period wx r o

-- `reconcileWechatRefundStatus`
unfoldable pub reconcile : ℕ → ℕ → WxStatus → Option ℕ → Run
unfolding read_refund reconcile_read
reconcile period id wx scope = commit (read_refund id scope) λ x. reconcile_read period wx x.0 x.1

-- `['refunding', 'approved', 'failed'].includes(refund.status)`
abbrev pub is_syncable : RefundStatus → Bool
is_syncable RefundStatus.refunding = true
is_syncable RefundStatus.approved = true
is_syncable RefundStatus.failed = true
is_syncable _ = false

-- `syncRefund`; the query answers `none` where there is no payment service.
unfoldable pub sync_refund : ℕ → ℕ → Option WxStatus → Option ℕ → Run
unfolding read_refund reconcile
sync_refund period id wx scope = commit (read_refund id scope) λ x.
    commit (require (is_syncable x.0.status) (bad_request "当前状态无需同步"))
      λ _. commit (expect wx (unavailable "支付服务未就绪")) λ w. reconcile period id w scope

-- The loop of `syncOutstandingRefunds`: an exception is written down, and the next refund is asked for.
unfoldable pub sync_each : ℕ → (ℕ → Option WxStatus) → List Refund → Db → Db
unfolding sync_refund
sync_each period answer [] db = db
sync_each period answer (r ∷ rs) db =
    sync_each period answer rs ((sync_refund period r.id (answer r.id) none db).0)

-- `syncOutstandingRefunds`, at most 100 of the refunds, in the order of their last change, which is an
-- argument, and so is what the payment service says of each.
unfoldable pub sync_outstanding_refunds :
    ℕ → (ℕ → Option WxStatus) → (List Refund → List Refund) → Db → Db × ℕ
unfolding sync_each
sync_outstanding_refunds period answer by_age db =
    let rows = take 100 (by_age (keep (λ r. is_syncable r.status) db.refunds)) in
    (sync_each period answer rows db, length rows)
