-- ===== src/Business/Refunds/Laws.antt =====
-- The customer's refunds: they stay within what was paid, one at a time, and a withdrawn one gives the
-- order its state back.
use Prim.Native.String.{String}
use buchuqin_api.Prelude.{
  le→leb, ℕ, ◌+◌, ◌≤◌, ◌≡◌, ◌≢◌, refl, sym, ◌∙◌, true, List, [], ◌∷◌, ◌++◌, some, leb, arith,
  leb→le, ==_refl,
}
use buchuqin_api.Common.Status.{Status, is_status_refl}
use buchuqin_api.Common.RefundAmount.{RefundSource}
use buchuqin_api.Store.{
  Db, ok, Failure, bad_request, ◌>>=◌, ◌>>◌, require, read, find_order, has_order_id,
}
use buchuqin_api.Store.Holds.{
  Holds, IsThrown, IsOk, won_pass, Holds-require, Holds-won, require_ok, won_ok,
}
use buchuqin_api.Store.Table.{
  find_first, count_where, sum_where, update_many, sum_where-append, count_where-update_out,
  count_where_narrow, find_first-append, find_first-update_any,
}
use buchuqin_api.Store.Rows.{Order, RefundItem}
use buchuqin_api.Business.Refunds.{
  is_reserved, refund_amount, refund_amount_for, requested_amount, is_as_read, hold_order,
  new_refund, add_refund, is_available, reserve_refund, create_refund, restore_target, is_held,
  restore_order, restore_order_from_refund, has_refund_id, is_refund_of, withdraw, cancel_refund,
  cancel_after_sale,
}

-- What the refunds of an order hold of its money.
abbrev pub reserved : ℕ → Db → ℕ
reserved order_id db = sum_where (is_reserved order_id) refund_amount db.refunds

module _ (o : Order) (source : RefundSource) (text : String) (items : List RefundItem)
    (db : Db) where
  held_db : Db
  held_db = record db { orders = update_many (is_as_read o) (hold_order text) db.orders }

  reserve_refund-Holds :
      (Q : Db → Type 0)
      → (is_available o items (reserved o.id db) ≡ true
          → Holds Q (add_refund o source items held_db))
      → Holds Q (create_refund o source text items db)
  unfolding create_refund reserve_refund held_db
  reserve_refund-Holds Q h =
      let fine = is_available o items (reserved o.id db) in
      let over : Failure = bad_request "超出可退上限" in
      Holds-require Q (leb 1 (requested_amount o items)) (bad_request "可退金额不足 0.01 元，无法提交退款")
        (reserve_refund o source text items) db
        λ _.
          Holds-won Q (count_where (is_as_read o) db.orders) (bad_request "该订单已有退款申请或状态已变化")
            (read (λ db. sum_where (is_reserved o.id) refund_amount db.refunds) >>= λ r.
              require (is_available o items r) over >> add_refund o source items)
            held_db (Holds-require Q fine over (add_refund o source items) held_db h)

  -- A new refund leaves the refunds of its order within what the customer paid for the goods: those that
  -- are pending, approved, on their way or paid out are together at most the price paid less the delivery
  -- fee.
  pub create_refund-IsWithin :
      Holds (λ d. reserved o.id d ≤ refund_amount_for o) (create_refund o source text items db)
  unfolding held_db
  create_refund-IsWithin =
      reserve_refund-Holds (λ d. reserved o.id d ≤ refund_amount_for o)
        λ fine.
          let within : requested_amount o items + reserved o.id db ≤ refund_amount_for o =
            leb→le (requested_amount o items + reserved o.id db) (refund_amount_for o) fine in
          rw
            (
              sum_where-append (is_reserved o.id) refund_amount db.refunds
                  (new_refund o source items db.next_id ∷ []),
              ==_refl o.id,
            )
            (omega arith)

  -- The order is held by the refund.
  create_refund-IsHeld :
      o.status ≢ Status.after_sales
      → Holds (λ d. count_where (is_as_read o) d.orders ≡ 0) (create_refund o source text items db)
  unfolding held_db
  create_refund-IsHeld open_ =
      reserve_refund-Holds (λ d. count_where (is_as_read o) d.orders ≡ 0)
        λ _. count_where-update_out (is_as_read o) (hold_order text) db.orders λ x h. ground arith

  create_refund-IsThrown :
      count_where (is_as_read o) db.orders ≡ 0 → IsThrown (create_refund o source text items db)
  unfolding create_refund reserve_refund
  create_refund-IsThrown gone =
      Holds-require (λ _. ⊥) (leb 1 (requested_amount o items)) (bad_request "可退金额不足 0.01 元，无法提交退款")
        (reserve_refund o source text items) db λ _. rw gone tt

  create_refund_ok :
      {id : ℕ} {db' : Db}
      → create_refund o source text items db ≡ ok id db'
      → (1 ≤ count_where (is_as_read o) db.orders) × (ok id db' ≡ add_refund o source items held_db)
  unfolding create_refund reserve_refund held_db
  create_refund_ok {id} {db'} done =
      let over : Failure = bad_request "超出可退上限" in
      let fine = is_available o items (reserved o.id db) in
      let added = add_refund o source items in
      let small =
        require_ok (leb 1 (requested_amount o items)) (bad_request "可退金额不足 0.01 元，无法提交退款")
          (reserve_refund o source text items) db done in
      let locked =
        won_ok (count_where (is_as_read o) db.orders) (bad_request "该订单已有退款申请或状态已变化")
          (read (λ d. sum_where (is_reserved o.id) refund_amount d.refunds) >>= λ r.
            require (is_available o items r) over >> added)
          held_db (small.1) in
      let last = require_ok fine over added held_db (locked.1) in (locked.0, sym (last.1))

  -- The database after a refund was created and withdrawn.
  cancelled_db : Db
  cancelled_db = record db {
    orders =
        update_many (is_held o.id) (restore_order o.status)
          (update_many (is_as_read o) (hold_order text) db.orders);
    refunds =
        update_many (has_refund_id db.next_id) withdraw
          (db.refunds ++ (new_refund o source items db.next_id ∷ []));
    next_id = db.next_id + 1;
  }

  found_refund :
      count_where (has_refund_id db.next_id) db.refunds ≡ 0
      → find_first
          (is_refund_of o.user_id db.next_id)
          (db.refunds ++ (new_refund o source items db.next_id ∷ []))
        ≡ some (new_refund o source items db.next_id)
  found_refund fresh =
      find_first-append (is_refund_of o.user_id db.next_id) db.refunds
        (new_refund o source items db.next_id)
        (count_where_narrow (is_refund_of o.user_id db.next_id) (has_refund_id db.next_id)
          db.refunds (λ x h. ground arith) fresh)
        (rw (==_refl o.user_id, ==_refl db.next_id) refl)

  cancel_created :
      count_where (has_refund_id db.next_id) db.refunds ≡ 0
      → {id : ℕ} {db' : Db} → ok id db' ≡ add_refund o source items held_db
      → cancel_after_sale o.user_id id db' ≡ ok tt cancelled_db
  unfolding cancel_after_sale cancel_refund restore_order_from_refund cancelled_db held_db
  cancel_created fresh {id} {db'} shape =
      let after = record held_db {
        refunds = db.refunds ++ (new_refund o source items db.next_id ∷ []);
        next_id = db.next_id + 1;
      } in
      let same_id : id ≡ db.next_id = cc in
      let same_db : db' ≡ after = cc in rw (same_id, same_db, found_refund fresh) refl

  restored_order :
      find_order o.id db ≡ some o
      → find_order o.id cancelled_db ≡ some (restore_order o.status (hold_order text o))
  unfolding cancelled_db
  restored_order here =
      let held : find_order o.id
            (record db { orders = update_many (is_as_read o) (hold_order text) db.orders })
          ≡ some (hold_order text o) =
        (find_first-update_any (has_order_id o.id) (is_as_read o) (hold_order text) db.orders
          (λ y h. refl) here)
        ∙ rw (==_refl o.id, is_status_refl o.status) refl in
      find_first-update_any (has_order_id o.id) (is_held o.id) (restore_order o.status)
        (update_many (is_as_read o) (hold_order text) db.orders) (λ y h. refl) held
      ∙ rw (==_refl o.id) refl

-- A refund is created where there is something to pay back, the order is still in the state in which it was
-- read, and the refunds that hold its money leave room for the amount.
pub create_refund-IsOk :
    (o : Order) (source : RefundSource) (text : String) (items : List RefundItem) (db : Db)
    → 1 ≤ requested_amount o items
    → 1 ≤ count_where (is_as_read o) db.orders
    → requested_amount o items + reserved o.id db ≤ refund_amount_for o
    → IsOk (create_refund o source text items db)
unfolding create_refund reserve_refund
create_refund-IsOk o source text items db some_ here room =
    let over : Failure = bad_request "超出可退上限" in
    let big : leb 1 (requested_amount o items) ≡ true = le→leb 1 (requested_amount o items) some_ in
    let fine : is_available o items (reserved o.id db) ≡ true =
      le→leb (requested_amount o items + reserved o.id db) (refund_amount_for o) room in
    rw
      (
        big,
        won_pass (count_where (is_as_read o) db.orders) (bad_request "该订单已有退款申请或状态已变化")
            (read (λ d. sum_where (is_reserved o.id) refund_amount d.refunds) >>= λ r.
              require (is_available o items r) over >> add_refund o source items)
            (record db { orders = update_many (is_as_read o) (hold_order text) db.orders }) here,
        fine,
      )
      tt

-- One refund at a time: after a refund was created from the state that its order had been read in, no other
-- request that had read the order in that state creates one.
pub create_refund_once :
    (o o' : Order) (source source' : RefundSource) (text text' : String)
    (items items' : List RefundItem) (db db' : Db) (id : ℕ)
    → o.status ≢ Status.after_sales
    → o'.id ≡ o.id
    → o'.status ≡ o.status
    → create_refund o source text items db ≡ ok id db'
    → IsThrown (create_refund o' source' text' items' db')
create_refund_once o o' source source' text text' items items' db db' id open_ same_id same_status
      done =
    let gone : count_where (is_as_read o) db'.orders ≡ 0 =
      rw done at (create_refund-IsHeld o source text items db open_) in
    create_refund-IsThrown o' source' text' items' db' (rw (same_id, same_status) gone)

-- The state that a withdrawn refund leaves behind a state, as a table.
abbrev pub after_withdrawal : Status → Status
after_withdrawal Status.paid = Status.paid
after_withdrawal Status.delivered = Status.delivered
after_withdrawal Status.completed = Status.completed
after_withdrawal _ = Status.delivered

restore_target-after_withdrawal : (s : Status) → restore_target s ≡ after_withdrawal s
unfolding restore_target
restore_target-after_withdrawal s = ground arith

-- A refund that the customer withdraws gives the order its state back, if that was paid, delivered or
-- completed; from any other state the order goes to delivered.
pub create_refund-cancel_after_sale :
    (o : Order) (source : RefundSource) (text : String) (items : List RefundItem) (db db' : Db)
    (id : ℕ)
    → find_order o.id db ≡ some o
    → count_where (has_refund_id db.next_id) db.refunds ≡ 0
    → create_refund o source text items db ≡ ok id db'
    → (d : Db) × (x : Order) × (cancel_after_sale o.user_id id db' ≡ ok tt d)
      × (find_order o.id d ≡ some x)
      × (x.status ≡ after_withdrawal o.status)
unfolding cancel_after_sale cancel_refund restore_order_from_refund
create_refund-cancel_after_sale o source text items db db' id here fresh done =
    let shape = (create_refund_ok o source text items db done).1 in
    let d = cancelled_db o source text items db in
    let x = restore_order o.status (hold_order text o) in
    (
      d,
      x,
      cancel_created o source text items db fresh shape,
      restored_order o source text items db here,
      restore_target-after_withdrawal o.status,
    )
