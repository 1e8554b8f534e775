-- ===== src/Admin/Refunds/Laws.antt =====
-- The end of a refund: it is booked once, and what it does to its order.
use buchuqin_api.Prelude.{
  ℕ, ◌+◌, ◌≡◌, refl, Bool, true, List, Option, none, some, ◌&&◌, ◌||◌, Option-cases, not,
  Bool-cases, inl, inr,
}
use buchuqin_api.Store.{Db, Tx, ok, ◌>>◌, pure, write, when, bad_request, not_found, find_order}
use buchuqin_api.Store.Holds.{Holds, Holds-won, Holds-map, Holds-bind, Holds-when, Holds-expect}
use buchuqin_api.Store.Table.{find_first, count_where, sum_where, update_many, find_first-update}
use buchuqin_api.Store.Rows.{Order, Refund}
use buchuqin_api.Business.Refunds.{refund_amount, has_refund_id}
use buchuqin_api.Business.Orders.{release_coupon}
use buchuqin_api.Admin.Refunds.Finish.{
  is_pre, patch_order, restore_stock, give_back, is_refunded, is_with_fee, is_full, is_open,
  mark_refunded, book_refund, finish_current, is_done, finish_tx,
}

module _ (refund : Refund) (o : Order) where
  -- The refund is booked.
  abbrev IsBooked : Db → Type 0
  IsBooked d =
      (row : Refund) × (find_first (has_refund_id refund.id) d.refunds ≡ some row)
      × (is_done row ≡ true)

  release_coupon-IsBooked :
      (id : Option ℕ) (db : Db) → IsBooked db → Holds IsBooked (release_coupon id db)
  unfolding release_coupon
  release_coupon-IsBooked none db h = h
  release_coupon-IsBooked (some id) db h = h

  give_back-IsBooked :
      (current : Order) (db : Db) → IsBooked db → Holds IsBooked (give_back o current db)
  unfolding give_back restore_stock
  give_back-IsBooked current db h =
      Holds-bind IsBooked IsBooked (restore_stock o current) (λ _. release_coupon o.coupon_id) db
        (Holds-when IsBooked (not current.stock_restored) _ db h h)
        λ _ d k. release_coupon-IsBooked o.coupon_id d k

  mark_refunded-IsBooked :
      (rs : List Refund) {row : Refund}
      → find_first (has_refund_id refund.id) rs ≡ some row
      → find_first
          (has_refund_id refund.id)
          (update_many (has_refund_id refund.id) mark_refunded rs)
        ≡ some (mark_refunded row)
  mark_refunded-IsBooked rs h =
      find_first-update (has_refund_id refund.id) mark_refunded rs (λ x k. k) h

  book_refund-IsBooked :
      (current : Order) (full : Bool) (db : Db) {row : Refund}
      → find_first (has_refund_id refund.id) db.refunds ≡ some row
      → Holds IsBooked (book_refund refund o current full db)
  unfolding book_refund
  book_refund-IsBooked current full db found =
      let db₁ = record db {
        orders = update_many (is_open current) (patch_order full refund.before_status) db.orders;
      } in
      let db₂ = record db₁ {
        refunds = update_many (has_refund_id refund.id) mark_refunded db.refunds;
      } in
      let rest : Tx (Unit {0}) =
        write (λ d. record d {
          refunds = update_many (has_refund_id refund.id) mark_refunded d.refunds;
        })
        >> when (is_pre refund.source && full) (give_back o current) in
      let booked : IsBooked db₂ = (_, mark_refunded-IsBooked db.refunds found, refl) in
      Holds-won IsBooked (count_where (is_open current) db.orders) (bad_request "订单状态已变化，请刷新") rest
        db₁
        (Holds-when IsBooked (is_pre refund.source && full) (give_back o current) db₂ booked
          (give_back-IsBooked current db₂ booked))

  finish_current-IsBooked :
      (row : Refund) (fee_refunds before : ℕ) (db : Db)
      → find_first (has_refund_id refund.id) db.refunds ≡ some row
      → Holds IsBooked (finish_current refund o row fee_refunds before db)
  unfolding finish_current
  finish_current-IsBooked row fee_refunds before db found =
      let full = is_pre row.source || is_full o fee_refunds (before + row.amount) in
      Holds-expect IsBooked (find_order o.id db) (not_found "订单不存在")
        (λ current. book_refund refund o current full >> pure (some (before + row.amount))) db
        λ current _.
          Holds-bind IsBooked IsBooked (book_refund refund o current full)
            (λ _. pure (some (before + row.amount))) db (book_refund-IsBooked current full db found)
            λ _ d h. h

  finish_tx_booked : (d : Db) → IsBooked d → finish_tx refund o d ≡ ok none d
  unfolding finish_tx
  finish_tx_booked d (row, found, done) = rw (found, done) refl

  finish_tx-IsBooked : (db : Db) → Holds IsBooked (finish_tx refund o db)
  unfolding finish_tx
  finish_tx-IsBooked db = elim (Option-cases (find_first (has_refund_id refund.id) db.refunds)) [
    | inl e ↦ rw e tt
    | inr (row, e) ↦ elim (Bool-cases (is_done row)) [
      | inl d ↦ rw (e, d) (row, e, d)
      | inr d ↦
          rw (e, d)
            (finish_current-IsBooked row (count_where (is_with_fee o.id) db.refunds)
              (sum_where (is_refunded o.id) refund_amount db.refunds) db e)
    ]
  ]

  -- A refund is booked once: where the transaction that books it has returned, the same transaction on the
  -- database that it leaves changes nothing and reports that there was nothing to book.
  pub finish_tx-twice :
      (db : Db) → Holds (λ d. finish_tx refund o d ≡ ok none d) (finish_tx refund o db)
  finish_tx-twice db =
      Holds-map IsBooked (λ d. finish_tx refund o d ≡ ok none d) (finish_tx refund o db)
        finish_tx_booked (finish_tx-IsBooked db)
