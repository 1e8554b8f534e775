-- ===== src/Admin/Refunds/Audit.antt =====
-- src/admin/admin.service.ts: `auditRefund`, the approval and the rejection of a refund.
-- The payment service is outside the repository: what it answers is an argument. Amounts are whole cents
-- and not negative.
use buchuqin_api.Prelude.{
  ℕ, ◌+◌, ◌*◌, Bool, true, false, List, [], ◌∷◌, Option, none, some, ◌==◌, ◌||◌, ◌&&◌, not, leb,
  if◌then◌else◌, is_some, pos, ltb_ℤ, map,
}
use buchuqin_api.Common.Status.{Status, is_status, includes}
use buchuqin_api.Common.RefundAmount.{
  RefundSource, approved_refund_amount, order_arrived, refund_ceiling, pre_delivery_refundable,
}
use buchuqin_api.Store.{
  Db, Tx, ◌>>=◌, ◌>>◌, pure, read, write, require, expect, when, won, ok, Failure, bad_request,
  not_found, unavailable, update_orders, find_order,
}
use buchuqin_api.Store.Request.{Run, done, fail, commit}
use buchuqin_api.Store.Table.{find_first, count_where, sum_where, update_many}
use buchuqin_api.Store.Rows.{Order, Campus, Refund, RefundItem, RefundStatus}
use buchuqin_api.Tenancy.{find_campus}
use buchuqin_api.Business.Refunds.{
  is_reserved, refund_amount, has_refund_id, refund_status_code, is_held, is_as_read, hold_order,
  is_item_of,
}
use buchuqin_api.Admin.Refunds.Finish.{is_pre, go_back, finish_refund}

-- `refundDeliveryFee ?? (orderArrived(status) || …)`
unfoldable pub includes_fee : Option Bool → Status → Option Campus → Bool
includes_fee (some b) s c = b
includes_fee none s none = order_arrived s
includes_fee none s (some c) = order_arrived s || c.refund_fee_early

-- `restoreOrderFromRefund` of the back office.
unfoldable pub restore_order_admin : ℕ → Status → Tx (Unit {0})
restore_order_admin id before =
    write λ db. record db { orders = update_many (is_held id) (go_back before) db.orders }

abbrev pub set_status : RefundStatus → Refund → Refund
set_status s r = record r { status = s }

-- `tx.refund.update({ where: { id }, data: { status } })`
abbrev pub set_refund : ℕ → RefundStatus → Tx (Unit {0})
set_refund id s =
    write λ db. record db { refunds = update_many (has_refund_id id) (set_status s) db.refunds }

-- `['pending', 'failed'].includes(refund.status)`
abbrev pub is_auditable : RefundStatus → Bool
is_auditable RefundStatus.pending = true
is_auditable RefundStatus.failed = true
is_auditable _ = false

-- The rejection.
unfoldable pub reject_refund : Refund → Tx (Unit {0})
unfolding restore_order_admin
reject_refund r = do
  require (is_auditable r.status) (bad_request "当前状态不可拒绝")
  set_refund r.id RefundStatus.rejected
  restore_order_admin r.order_id r.before_status

-- The states of an order in which a refund may be approved.
unfoldable pub is_approvable : RefundSource → Status → Bool
is_approvable source s =
    (is_pre source && includes pre_delivery_refundable s)
    || includes (Status.after_sales ∷ Status.delivered ∷ Status.completed ∷ []) s

-- `amounts`: a product of the refund, and the amount set for its item.
abbrev pub find_item : ℕ → List RefundItem → Option RefundItem
find_item id items = find_first (is_item_of id) items

unfoldable pub check_amounts : List RefundItem → List (ℕ × ℕ) → Tx (Unit {0})
check_amounts items [] = pure tt
check_amounts items (a ∷ as') = do
  i ← expect (find_item a.0 items) (bad_request "退款商品行不存在")
  require (leb a.1 (i.unit_price * i.quantity)) (bad_request "金额超出该行上限")
  check_amounts items as'

abbrev pub set_amount : ℕ → RefundItem → RefundItem
set_amount n i = record i { amount = n }

unfoldable pub set_amounts : List (ℕ × ℕ) → List RefundItem → List RefundItem
set_amounts [] items = items
set_amounts (a ∷ as') items = set_amounts as' (update_many (is_item_of a.0) (set_amount a.1) items)

abbrev pub item_amounts : List RefundItem → List ℕ
item_amounts = map (λ i. i.amount)

-- The conditional update that takes the right to approve.
abbrev pub is_refund_as_read : Refund → Refund → Bool
is_refund_as_read r x =
    has_refund_id r.id x && (refund_status_code x.status == refund_status_code r.status)

unfoldable pub claim_refund : Refund → Tx (Unit {0})
claim_refund r = do
  claimed ← λ db. ok (count_where (is_refund_as_read r) db.refunds) (record db {
    refunds = update_many (is_refund_as_read r) (set_status RefundStatus.approved) db.refunds;
  })
  won claimed (bad_request "申请状态已变化，请刷新")

-- The order goes to after-sales, unless it is there.
unfoldable pub hold_unless_held : Order → Tx (Unit {0})
hold_unless_held o =
    when (not (is_status o.status Status.after_sales))
      (update_orders (is_as_read o) (hold_order "退款处理中") >>= λ n. won n (bad_request "订单状态已变化，请刷新"))

-- `status: { in: […] }, id: { not: id }`
abbrev pub is_other_reserved : Refund → Refund → Bool
is_other_reserved r x = is_reserved r.order_id x && not (has_refund_id r.id x)

-- `finalAmount + refundedBefore > refundableTotal`, negated.
unfoldable pub is_within_total : Order → Bool → ℕ → Bool
is_within_total o fee amount =
    not (ltb_ℤ (refund_ceiling o.payable_amount o.delivery_fee fee) (pos amount))

abbrev pub finalize : Bool → ℕ → Refund → Refund
finalize fee amount r = record r { amount = amount; fee_included = fee }

-- The amount that was found is checked and written.
unfoldable pub settle_amount : Refund → Order → Bool → ℕ → Tx (Unit {0})
unfolding is_within_total
settle_amount r o fee final = do
  before ← read (λ db. sum_where (is_other_reserved r) refund_amount db.refunds)
  require (leb 1 final) (bad_request "退款金额必须至少为 0.01 元")
  require (is_within_total o fee (final + before)) (bad_request "超出可退上限")
  write (λ db. record db {
    refunds = update_many (has_refund_id r.id) (finalize fee final) db.refunds;
  })

abbrev pub write_items : List (ℕ × ℕ) → Refund → Refund
write_items amounts x = record x { items = set_amounts amounts x.items }

-- The transaction of an approval; `r` and `o` are the rows as they were read.
unfoldable pub approve_tx : Refund → Order → Bool → List (ℕ × ℕ) → Tx (Unit {0})
unfolding claim_refund hold_unless_held settle_amount set_amounts
approve_tx r o fee amounts = do
  claim_refund r
  hold_unless_held o
  write (λ db. record db {
    refunds = update_many (has_refund_id r.id) (write_items amounts) db.refunds;
  })
  found ← read (λ db. find_first (has_refund_id r.id) db.refunds)
  row ← expect found (not_found "退款申请不存在")
  final ←
      expect (approved_refund_amount r.source r.amount (item_amounts row.items))
        (bad_request "未知退款来源")
  settle_amount r o fee final

-- What the payment service answers: the money is back, the refund is under way (or its outcome not
-- known), or it was refused.
pub data Reply : Type 0 where
  succeeded processing refused : Reply

-- The empty snapshot of an old refund before delivery is `other`.
abbrev pub restored_status : Refund → Status
restored_status r =
    if is_pre r.source && is_status r.before_status Status.other
    then Status.paid
    else r.before_status

-- The refund is marked as failed, and the order goes back.
unfoldable pub fail_refund : Refund → Run
unfolding restore_order_admin
fail_refund r = commit (set_refund r.id RefundStatus.failed) λ _.
    commit (restore_order_admin r.order_id (restored_status r)) λ _. fail (bad_request "退款发起失败")

-- The `catch` around the booking of a refund: an exception of the framework fails the refund, any other
-- leaves it under way.
unfoldable pub after_finish : Refund → Option Failure → Run
unfolding fail_refund
after_finish r none = done
after_finish r (some (not_found text)) = commit (set_refund r.id RefundStatus.refunding) λ _. done
after_finish r (some e) = fail_refund r

-- What follows the answer.
unfoldable pub after_reply : ℕ → Reply → Refund → Run
unfolding finish_refund after_finish
after_reply period succeeded r db = let (db', e) = finish_refund period r db in after_finish r e db'
after_reply period processing r db = commit (set_refund r.id RefundStatus.refunding) (λ _. done) db
after_reply period refused r db = fail_refund r db

-- The checks in front of the transaction of an approval.
unfoldable pub check_approval : Option Reply → Refund → Order → List (ℕ × ℕ) → Tx (Unit {0})
unfolding is_approvable check_amounts
check_approval reply r o amounts = do
  require (is_auditable r.status) (bad_request "当前状态不可批准")
  require (is_approvable r.source o.status) (bad_request "订单状态已变化，无法退款，请刷新")
  require (is_some reply) (unavailable "支付服务未就绪，无法发起退款")
  check_amounts r.items amounts

-- The approval, from the refund and its order as they were read on; the answer is `none` where there is no
-- payment service.
unfoldable pub approve_refund : ℕ → Option Reply → Refund → Order → Bool → List (ℕ × ℕ) → Run
unfolding check_approval approve_tx after_reply
approve_refund period none r o fee amounts = commit (check_approval none r o amounts) λ _. done
approve_refund period (some reply) r o fee amounts =
    commit (check_approval (some reply) r o amounts) λ _.
      commit (approve_tx r o fee amounts)
        λ _. after_reply period reply (record r { status = RefundStatus.approved })

-- `scope !== null && order.campusId !== scope`, negated.
abbrev pub in_scope : Option ℕ → Order → Bool
in_scope none o = true
in_scope (some c) o = o.campus_id == c

-- The refund of an identifier with its order, where the operator may see it.
unfoldable pub read_refund : ℕ → Option ℕ → Tx (Refund × Order)
read_refund id scope = do
  found ← read (λ db. find_first (has_refund_id id) db.refunds)
  r ← expect found (not_found "退款申请不存在")
  order ← read (find_order r.order_id)
  o ← expect order (not_found "退款申请不存在")
  require (in_scope scope o) (not_found "退款申请不存在")
  pure (r, o)

pub data Verdict : Type 0 where
  approve reject : Verdict

unfoldable pub audit_read :
    ℕ
    → Option Reply
    → Verdict
    → Option Bool
    → List (ℕ × ℕ)
    → Refund
    → Order
    → Db
    → Db × Option Failure
unfolding reject_refund approve_refund includes_fee
audit_read period reply reject fee amounts r o db = commit (reject_refund r) (λ _. done) db
audit_read period reply approve fee amounts r o db =
    approve_refund period reply r o (includes_fee fee o.status (find_campus o.campus_id db)) amounts
      db

-- `auditRefund`
unfoldable pub audit_refund :
    ℕ → Option Reply → ℕ → Verdict → Option ℕ → Option Bool → List (ℕ × ℕ) → Run
unfolding read_refund audit_read
audit_refund period reply id verdict scope fee amounts =
    commit (read_refund id scope) λ x. audit_read period reply verdict fee amounts x.0 x.1
