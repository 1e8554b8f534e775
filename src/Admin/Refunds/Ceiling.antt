-- ===== src/Admin/Refunds/Ceiling.antt =====
-- The refunds of an order stay within what may be paid back, on each way in which the back office sets an
-- amount.
use buchuqin_api.Prelude.{
  ap, sym, ◌∙◌, ℕ, ◌+◌, ◌≤◌, ◌≡◌, refl, Bool, true, false, List, [], ◌∷◌, some, not, leb, arith,
  pos, ◌≤ℤ◌, ==_refl,
}
use buchuqin_api.Common.Status.{Status, is_status}
use buchuqin_api.Common.RefundAmount.{
  RefundSource, approved_refund_amount, refund_ceiling, after_sale, pre_delivery,
}
use buchuqin_api.Store.{
  Db, Tx, ◌>>=◌, ◌>>◌, read, write, require, expect, won, Failure, bad_request, not_found,
  update_orders,
}
use buchuqin_api.Store.Holds.{
  Holds, IsThrown, Holds-won, Holds-won_last, Holds-bind, Holds-when, Holds-expect, Holds-require,
}
use buchuqin_api.Store.Table.{
  find_first, count_where, sum_where, update_many, count_where-update, sum_where-append,
}
use buchuqin_api.Store.Rows.{Order, Refund, RefundItem, RefundStatus}
use buchuqin_api.Business.Refunds.{
  is_reserved, refund_amount, has_refund_id, is_as_read, hold_order, items_amount,
}
use buchuqin_api.Business.Refunds.Laws.{reserved}
use buchuqin_api.Admin.Refunds.Audit.{
  is_refund_as_read, claim_refund, hold_unless_held, is_other_reserved, is_within_total, finalize,
  settle_amount, write_items, set_status, approve_tx, item_amounts,
}
use buchuqin_api.Admin.Refunds.Create.{before_of, check_ceiling, insert_refund, create_tx}

is_within_total-le :
    (o : Order) (fee : Bool) (n : ℕ)
    → is_within_total o fee n ≡ true
    → pos n ≤ℤ refund_ceiling o.payable_amount o.delivery_fee fee
unfolding is_within_total
is_within_total-le o fee n h = ground arith

is_within_total-payable :
    (o : Order) (n : ℕ) → is_within_total o true n ≡ true → n ≤ o.payable_amount
unfolding is_within_total refund_ceiling
is_within_total-payable o n h = ground arith

module _ (r : Refund) (id : ℕ) (fee : Bool) (final : ℕ) (same : r.order_id ≡ id) where
  -- The sum where no row is the refund's, and where one row is.
  sum_where-absent :
      (rs : List Refund)
      → count_where (has_refund_id r.id) rs ≡ 0
      → sum_where
          (is_reserved id)
          refund_amount
          (update_many (has_refund_id r.id) (finalize fee final) rs)
        ≤ sum_where (is_other_reserved r) refund_amount rs
  sum_where-absent [] none_ = omega arith
  sum_where-absent (x ∷ rs) none_ = ground (arith, sum_where-absent rs)

  sum_where-finalize :
      (rs : List Refund)
      → count_where (has_refund_id r.id) rs ≤ 1
      → sum_where
          (is_reserved id)
          refund_amount
          (update_many (has_refund_id r.id) (finalize fee final) rs)
        ≤ sum_where (is_other_reserved r) refund_amount rs + final
  sum_where-finalize [] one = omega arith
  sum_where-finalize (x ∷ rs) one = ground (arith, sum_where-absent rs, sum_where-finalize rs)

module _ (r : Refund) (o : Order) (fee : Bool) where
  -- The refunds of the order hold at most what may be paid back.
  abbrev pub IsWithin : Db → Type 0
  IsWithin d = pos (reserved o.id d) ≤ℤ refund_ceiling o.payable_amount o.delivery_fee fee

  abbrev IsSingle : Db → Type 0
  IsSingle d = count_where (has_refund_id r.id) d.refunds ≤ 1

  settle_amount-IsWithin :
      (final : ℕ) (db : Db)
      → r.order_id ≡ o.id
      → IsSingle db
      → Holds IsWithin (settle_amount r o fee final db)
  unfolding settle_amount
  settle_amount-IsWithin final db same one =
      let before = sum_where (is_other_reserved r) refund_amount db.refunds in
      let small : Failure = bad_request "退款金额必须至少为 0.01 元" in
      let over : Failure = bad_request "超出可退上限" in
      let last : Tx (Unit {0}) = write λ d. record d {
        refunds = update_many (has_refund_id r.id) (finalize fee final) d.refunds;
      } in
      Holds-require IsWithin (leb 1 final) small
        (require (is_within_total o fee (final + before)) over >> last) db
        λ _. Holds-require IsWithin (is_within_total o fee (final + before)) over last db λ fine.
          let bound = is_within_total-le o fee (final + before) fine in
          let sum = sum_where-finalize r o.id fee final same db.refunds one in ground arith

  claim_refund-IsSingle : (db : Db) → IsSingle db → Holds IsSingle (claim_refund r db)
  unfolding claim_refund
  claim_refund-IsSingle db one =
      Holds-won_last IsSingle (count_where (is_refund_as_read r) db.refunds)
        (bad_request "申请状态已变化，请刷新") _
        (rw
          (count_where-update (has_refund_id r.id) (is_refund_as_read r)
            (set_status RefundStatus.approved) db.refunds λ x h. refl)
          one)

  hold_unless_held-IsSingle : (db : Db) → IsSingle db → Holds IsSingle (hold_unless_held o db)
  unfolding hold_unless_held
  hold_unless_held-IsSingle db one =
      let hold : Tx (Unit {0}) = update_orders (is_as_read o) (hold_order "退款处理中") >>= λ n.
      won n (bad_request "订单状态已变化，请刷新") in
      Holds-when IsSingle (not (is_status o.status Status.after_sales)) hold db one (
        Holds-won_last IsSingle (count_where (is_as_read o) db.orders) (bad_request "订单状态已变化，请刷新") _
          one)

  -- What follows the items: the amount is found and settled.
  settle_found : Tx (Unit {0})
  settle_found = do
    found ← read (λ db. find_first (has_refund_id r.id) db.refunds)
    row ← expect found (not_found "退款申请不存在")
    final ←
        expect (approved_refund_amount r.source r.amount (item_amounts row.items))
          (bad_request "未知退款来源")
    settle_amount r o fee final

  -- What holds at the end of an approval, if it holds at the end of each settlement.
  approve_tx-Holds :
      (Q : Db → Type 0) (amounts : List (ℕ × ℕ)) (db : Db)
      → ((items : List ℕ) (final : ℕ) (d : Db)
          → approved_refund_amount r.source r.amount items ≡ some final
          → IsSingle d
          → Holds Q (settle_amount r o fee final d))
      → IsSingle db
      → Holds Q (approve_tx r o fee amounts db)
  unfolding approve_tx settle_found
  approve_tx-Holds Q amounts db settled one =
      let items : Tx (Unit {0}) = write λ d. record d {
        refunds = update_many (has_refund_id r.id) (write_items amounts) d.refunds;
      } in
      let amount =
        λ (row : Refund). approved_refund_amount r.source r.amount (item_amounts row.items) in
      let no_source : Failure = bad_request "未知退款来源" in
      Holds-bind IsSingle Q (claim_refund r) (λ _. hold_unless_held o >> (items >> settle_found)) db
        (claim_refund-IsSingle db one)
        λ _ d h.
          Holds-bind IsSingle Q (hold_unless_held o) (λ _. items >> settle_found) d
            (hold_unless_held-IsSingle d h)
            λ _ e k.
              let e' = record e {
                refunds = update_many (has_refund_id r.id) (write_items amounts) e.refunds;
              } in
              Holds-expect Q (find_first (has_refund_id r.id) e'.refunds) (not_found "退款申请不存在")
                (λ row. expect (amount row) no_source >>= λ final. settle_amount r o fee final) e'
                λ row _.
                  Holds-expect Q (amount row) no_source (λ final. settle_amount r o fee final) e'
                    λ final found. settled (item_amounts row.items) final e' found (
                      rw
                        (count_where-update (has_refund_id r.id) (has_refund_id r.id)
                          (write_items amounts) e.refunds λ x q. refl)
                        k)

  -- An approval leaves the refunds of its order within what may be paid back: those that are pending,
  -- approved, on their way or paid out are together at most the price paid, less the delivery fee unless it
  -- is included. The identifier of the refund stands at most once.
  pub approve_tx-IsWithin :
      (amounts : List (ℕ × ℕ)) (db : Db)
      → r.order_id ≡ o.id
      → count_where (has_refund_id r.id) db.refunds ≤ 1
      → Holds IsWithin (approve_tx r o fee amounts db)
  approve_tx-IsWithin amounts db same one =
      approve_tx-Holds IsWithin amounts db
        (λ _ final d _ single. settle_amount-IsWithin final d same single) one

pre_delivery_final :
    (source : RefundSource) (amount final : ℕ) (items : List ℕ)
    → source ≡ pre_delivery
    → approved_refund_amount source amount items ≡ some final
    → final ≡ amount
unfolding approved_refund_amount
pre_delivery_final source amount final items e found = ground arith

is_within_total-price :
    (o : Order) (n : ℕ)
    → o.payable_amount + o.discount ≡ o.product_amount + o.delivery_fee
    → is_within_total o false (o.product_amount + n) ≡ true
    → o.discount ≡ 0
unfolding is_within_total refund_ceiling
is_within_total-price o n price fine = ground arith

-- A refund before delivery of the price of the goods, as the back office opens it for a whole order under
-- way, is never approved without the delivery fee where a coupon took something off the order: the price of
-- the goods is more than what may be paid back.
pub approve_tx-IsThrown :
    (r : Refund) (o : Order) (amounts : List (ℕ × ℕ)) (db : Db)
    → r.source ≡ pre_delivery
    → r.amount ≡ o.product_amount
    → o.payable_amount + o.discount ≡ o.product_amount + o.delivery_fee
    → 1 ≤ o.discount
    → count_where (has_refund_id r.id) db.refunds ≤ 1
    → IsThrown (approve_tx r o false amounts db)
unfolding settle_amount
approve_tx-IsThrown r o amounts db source amount price discounted one =
    approve_tx-Holds r o false (λ _. ⊥) amounts db
      (λ items final d found _.
        let before = sum_where (is_other_reserved r) refund_amount d.refunds in
        let small : Failure = bad_request "退款金额必须至少为 0.01 元" in
        let over : Failure = bad_request "超出可退上限" in
        let last : Tx (Unit {0}) = write λ e. record e {
          refunds = update_many (has_refund_id r.id) (finalize false final) e.refunds;
        } in
        Holds-require (λ _. ⊥) (leb 1 final) small
          (require (is_within_total o false (final + before)) over >> last) d
          λ _.
            Holds-require (λ _. ⊥) (is_within_total o false (final + before)) over last d
              λ fine.
                let e : final ≡ o.product_amount =
                  pre_delivery_final r.source r.amount final items source found ∙ amount in
                let free =
                  is_within_total-price o before price
                    (ap (λ n. is_within_total o false (n + before)) (sym e) ∙ fine) in
                omega arith)
      one

-- A refund by products that the back office opens leaves the refunds of its order within the price paid,
-- delivery included.
pub create_tx-IsWithin :
    (o : Order) (items : List RefundItem) (db : Db)
    → Holds (λ d. reserved o.id d ≤ o.payable_amount) (create_tx o items db)
unfolding create_tx check_ceiling insert_refund
create_tx-IsWithin o items db =
    let Q = λ (d : Db). reserved o.id d ≤ o.payable_amount in
    let fine = is_within_total o true (items_amount items + reserved o.id db) in
    let over : Failure = bad_request "超出可退上限" in
    let insert = insert_refund o after_sale (items_amount items) (before_of o) true items in
    let db₁ = record db { orders = update_many (is_as_read o) (hold_order "部分退款中") db.orders } in
    Holds-won Q (count_where (is_as_read o) db.orders) (bad_request "订单状态已变化，请刷新")
      (check_ceiling o (items_amount items) >> insert) db₁
      (Holds-require Q fine over insert db₁ λ within.
        let bound = is_within_total-payable o (items_amount items + reserved o.id db) within in
        rw (sum_where-append (is_reserved o.id) refund_amount db.refunds, ==_refl o.id)
          (omega arith))
