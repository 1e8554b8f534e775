-- ===== src/Admin/Orders/Manual.antt =====
-- States that the back office sets by hand: which orders it may touch, and what a delivery entered by hand
-- leaves behind.
use buchuqin_api.Prelude.{
  ℕ, ◌≡◌, refl, Bool, true, false, List, [], ◌∷◌, Option, none, some, ◌||◌, ◌&&◌, not, arith,
}
use buchuqin_api.Common.Status.{
  Status, is_status, includes, is_status-eq, is_status_refl, order_statuses,
}
use buchuqin_api.Store.{
  Db, transaction, Failure, bad_request, not_found, when, discard, require, ◌>>◌, has_order_id,
}
use buchuqin_api.Store.Holds.{
  Holds, Holds-won, Holds-transaction, Holds-bind, Holds-expect, Holds-require, Holds-when,
  Holds-with,
}
use buchuqin_api.Store.Table.{Pairs, Pairs-refl, Pairs-update, count_where, update_many, find_first}
use buchuqin_api.Store.Rows.{Order}
use buchuqin_api.Commission.Record.{
  record_for_delivered, delivered_row, delivered_targets, manager_of,
}
use buchuqin_api.Commission.Record.Laws.{IsSettled, add_all-IsSettled}
use buchuqin_api.Business.Orders.{release_coupon}
use buchuqin_api.Business.Refunds.{is_as_read}
use buchuqin_api.Business.Advance.{step_to}
use buchuqin_api.Store.SameOrder.{SameOrder, SameOrder-refl}
use buchuqin_api.Admin.Orders.{
  read_order, is_visible, frozen_statuses, is_receipt, manual_text, set_order_status, update_read,
  update_order_status,
}
use buchuqin_api.Admin.Orders.Edges.{Orders, release_coupon-Orders, step_to-SameOrder, or_right}

-- The states that no hand changes: unpaid, cancelled, refunded, completed and in after-sales.
abbrev pub untouchable : List Status
untouchable =
    Status.pending_payment ∷ Status.cancelled ∷ Status.refunded ∷ Status.completed
    ∷ Status.after_sales ∷ []

-- The change of a state by hand: out of a state that is not frozen, to the state that was asked for, which
-- is one of the program's.
abbrev pub is_manual_edge : Status → Status → Status → Bool
is_manual_edge target s t =
    is_status s t
    || (not (includes untouchable s) && is_status t target && includes order_statuses target)

abbrev pub ByHand : Status → Order → Order → Type 0
ByHand target x y = SameOrder x y × (is_manual_edge target x.status y.status ≡ true)

is_manual_edge_refl : (target s : Status) → is_manual_edge target s s ≡ true
is_manual_edge_refl target s = rw (is_status_refl s) refl

ByHand-refl : (target : Status) (x : Order) → ByHand target x x
ByHand-refl target x = (SameOrder-refl x, is_manual_edge_refl target x.status)

is_manual_edge-target :
    (s target : Status)
    → includes order_statuses target ≡ true
    → not (includes frozen_statuses s) ≡ true
    → is_manual_edge target s target ≡ true
is_manual_edge-target s target known open_ =
    rw (is_status_refl target, known, open_) (or_right (is_status s target) true refl)

module _ (now period : ℕ) (target : Status) (has_reason : Bool) (before : Order) where
  update_read-Holds :
      (Q : Db → Type 0) (db : Db)
      → (includes order_statuses target ≡ true
          → not (includes frozen_statuses before.status) ≡ true
          → not (is_receipt target) || has_reason ≡ true
          → Holds Q (
              when
                (not (is_status before.status target))
                (set_order_status now period before target)
                db))
      → Holds Q (update_read now period target has_reason before db)
  unfolding update_read
  update_read-Holds Q db h =
      let last =
        when (not (is_status before.status target)) (set_order_status now period before target) in
      let reasoned = not (is_receipt target) || has_reason in
      let open_ = not (includes frozen_statuses before.status) in
      let no_reason : Failure = bad_request "补录已送达/已完成必须填写变更原因" in
      let frozen : Failure = bad_request "订单当前状态不可修改" in
      Holds-require Q (includes order_statuses target) (bad_request "未知订单状态")
        (require open_ frozen >> (require reasoned no_reason >> last)) db
        λ known.
          Holds-require Q open_ frozen (require reasoned no_reason >> last) db
            λ free. Holds-require Q reasoned no_reason last db λ r. h known free r

  module _ (db : Db) where
    -- The order of the database after the conditional update.
    stepped : Db
    stepped = record db {
      orders =
          update_many (is_as_read before) (step_to now before.timeline target (manual_text target))
            db.orders;
    }

    set_order_status-Holds :
        (P Q : Db → Type 0)
        → P stepped
        → ((d : Db) → P d → Holds P (release_coupon before.coupon_id d))
        → ((d : Db)
            → P d
            → Holds Q (
                when
                  (is_receipt target)
                  (discard (record_for_delivered period (record before { status = target })))
                  d))
        → Holds Q (set_order_status now period before target db)
    unfolding set_order_status stepped
    set_order_status-Holds P Q start coupon last =
        let paying =
          when (is_receipt target)
            (discard (record_for_delivered period (record before { status = target }))) in
        let cancelling =
          when (is_status target Status.cancelled) (release_coupon before.coupon_id) in
        Holds-won Q (count_where (is_as_read before) db.orders) (bad_request "订单状态已变化，请刷新重试")
          (cancelling >> paying) stepped
          (Holds-bind P Q cancelling (λ _. paying) stepped
            (Holds-when P (is_status target Status.cancelled) (release_coupon before.coupon_id)
              stepped start (coupon stepped start))
            λ _ d h. last d h)

    abbrev ByHandHere : Db → Type 0
    ByHandHere = Orders (ByHand target) (ByHand-refl target) db

    stepped-ByHand :
        includes order_statuses target ≡ true
        → not (includes frozen_statuses before.status) ≡ true
        → ByHandHere stepped
    unfolding stepped
    stepped-ByHand known open_ =
        Pairs-update (ByHand target) (ByHand-refl target) (is_as_read before)
          (step_to now before.timeline target (manual_text target)) db.orders
          λ x h.
            let s : x.status ≡ before.status = is_status-eq x.status before.status (ground arith) in
            (
              step_to-SameOrder now before.timeline target (manual_text target) x,
              rw s (is_manual_edge-target before.status target known open_),
            )

    record_when :
        (b : Bool) (d : Db)
        → ByHandHere d
        → Holds ByHandHere
            (when b (discard (record_for_delivered period (record before { status = target }))) d)
    unfolding record_for_delivered
    record_when true d h = h
    record_when false d h = h

    update_read-ByHand : Holds ByHandHere (update_read now period target has_reason before db)
    update_read-ByHand = update_read-Holds ByHandHere db λ known open_ _.
        Holds-when ByHandHere (not (is_status before.status target))
          (set_order_status now period before target) db
          (Pairs-refl (ByHand target) (ByHand-refl target) db.orders)
          (set_order_status-Holds ByHandHere ByHandHere (stepped-ByHand known open_)
            (λ d h.
              release_coupon-Orders (ByHand target) (ByHand-refl target) db before.coupon_id d h)
            (λ d h. record_when (is_receipt target) d h))

    -- The people and the campuses from which commissions are made are those of `db`.
    abbrev SameSources : Db → Type 0
    SameSources d = (d.campuses ≡ db.campuses) × (d.staff ≡ db.staff)

    release_coupon-SameSources :
        (id : Option ℕ) (d : Db) → SameSources d → Holds SameSources (release_coupon id d)
    unfolding release_coupon
    release_coupon-SameSources none d h = h
    release_coupon-SameSources (some id) d h = h

    abbrev Settled : Db → Type 0
    Settled d = IsSettled (record before { status = target }) db d.commissions

    record-Settled :
        (d : Db)
        → SameSources d
        → Holds Settled
            (discard (record_for_delivered period (record before { status = target })) d)
    unfolding record_for_delivered delivered_row delivered_targets manager_of
    record-Settled d (c, s) =
        let o = record before { status = target } in
        rw (c, s) (add_all-IsSettled period db o d.commissions)

    record_when-Settled :
        (b : Bool) (d : Db)
        → b ≡ true
        → SameSources d
        → Holds Settled
            (when b (discard (record_for_delivered period (record before { status = target }))) d)
    record_when-Settled true d e h = record-Settled d h
    record_when-Settled false d e h = cc

    stepped-SameSources : SameSources stepped
    unfolding stepped
    stepped-SameSources = (refl, refl)

    -- A delivery or a completion that the back office enters by hand, where it changes the state, has a
    -- reason, and leaves a commission of the order for its rider and for the manager whom the query for its
    -- building finds, where it has them.
    pub update_read-IsSettled :
        is_receipt target ≡ true
        → is_status before.status target ≡ false
        → Holds
            (λ d.
              (has_reason ≡ true) × IsSettled (record before { status = target }) db d.commissions)
            (update_read now period target has_reason before db)
    update_read-IsSettled receipt moving =
        let Q = λ (d : Db). (has_reason ≡ true) × Settled d in
        update_read-Holds Q db λ _ _ reasoned.
          let reason : has_reason ≡ true = ground arith in
          rw moving (
            Holds-with (has_reason ≡ true) Settled (set_order_status now period before target db)
              reason
              (set_order_status-Holds SameSources Settled stepped-SameSources
                (release_coupon-SameSources before.coupon_id)
                (λ d h. record_when-Settled (is_receipt target) d receipt h)))

-- A state set by hand: each order of the database keeps its state, or goes from a state that is not frozen
-- (not unpaid, cancelled, refunded, completed or in after-sales) to the state that was asked for, which is
-- one of the program's; and it keeps its owner, campus, lines, amounts and coupon.
pub update_order_status-ByHand :
    (now period id : ℕ) (target : Status) (has_reason : Bool) (scope : Option ℕ) (db : Db)
    → Pairs
        (ByHand target)
        db.orders
        (transaction (update_order_status now period id target has_reason scope) db).orders
unfolding update_order_status read_order
update_order_status-ByHand now period id target has_reason scope db =
    let Q = Orders (ByHand target) (ByHand-refl target) db in
    Holds-transaction Q (update_order_status now period id target has_reason scope) db
      (Pairs-refl (ByHand target) (ByHand-refl target) db.orders)
      (Holds-expect Q (find_first (λ o. has_order_id id o && is_visible scope o) db.orders)
        (not_found "订单不存在") (update_read now period target has_reason) db
        λ o _. update_read-ByHand now period target has_reason o db)
