-- ===== src/Admin/Orders/Actions.antt =====
-- src/admin/admin.service.ts, `orderAction`: every action moves orders along its edges.
use Prim.Native.String.{String}
use buchuqin_api.Prelude.{
  ℕ, ◌≡◌, refl, Bool, true, false, [], ◌∷◌, Option, some, ◌||◌, ◌&&◌, if◌then◌else◌, arith,
}
use buchuqin_api.Common.Status.{Status, is_status, includes, is_status-eq, is_status_refl}
use buchuqin_api.Store.{
  Db, transaction, bad_request, not_found, read, expect, ◌>>=◌, ◌>>◌, has_order_id,
}
use buchuqin_api.Store.Holds.{
  Holds, Holds-won, Holds-transaction, Holds-bind, Holds-expect, Holds-require,
}
use buchuqin_api.Store.Table.{
  Pairs, Pairs-refl, Pairs-update, count_where, find_first, find_first-sat,
}
use buchuqin_api.Store.Rows.{Order, LastMileMode}
use buchuqin_api.Tenancy.{campus_staff_delivery}
use buchuqin_api.Business.Closing.{is_pending, close_order}
use buchuqin_api.Business.Orders.{cancel, cancel_read, release_coupon, is_order_of}
use buchuqin_api.Business.Orders.Laws.{cancel_read-Holds, release_coupon-orders}
use buchuqin_api.Business.Pay.{notify}
use buchuqin_api.Business.Refunds.{is_as_read}
use buchuqin_api.Business.Advance.{
  advance_map, move_order, advance_read, advance, leave_stock, leave, outbound_read, outbound,
  has_manager_for, last_mile_mode_for, outbound_failure,
}
use buchuqin_api.Store.SameOrder.{SameOrder}
use buchuqin_api.Admin.Orders.{
  OrderAction, cancel_order, advance_order, outbound_order, mark_exception, staff_deliver,
  staff_complete, unknown, staff_next, staff_step, staff_failure, status_text_of, make_exception,
  mark_order_exception, act, read_order, is_visible, order_action,
}
use buchuqin_api.Admin.Orders.Edges.{
  ByAction, ByAction-refl, Orders, edge_row, advance_map-edge, staff_next-edge, outbound-edge,
  move_order-Orders, notify-Orders, leave-Orders, step_to-SameOrder, or_right,
}

module _ (a : OrderAction) (db : Db) where
  abbrev pub Moves : Db → Type 0
  Moves = Orders (ByAction a) (ByAction-refl a) db

  Moves-refl : Moves db
  Moves-refl = Pairs-refl (ByAction a) (ByAction-refl a) db.orders

advance-Moves :
    (now user_id id : ℕ) (db : Db) → Holds (Moves advance_order db) (advance now user_id id db)
unfolding advance advance_read
advance-Moves now user_id id db =
    let Q = Moves advance_order db in
    Holds-expect Q (find_first (is_order_of user_id id) db.orders) (not_found "订单不存在")
      (advance_read now) db
      λ raw _.
        Holds-expect Q (advance_map raw.status) (bad_request "当前状态不可推进履约")
          (λ next. move_order now raw raw.timeline next.0 next.1 >> notify raw.user_id next.1) db
          λ next e.
            Holds-bind Q Q (move_order now raw raw.timeline next.0 next.1)
              (λ _. notify raw.user_id next.1) db
              (move_order-Orders (ByAction advance_order) (ByAction-refl advance_order) db now raw
                raw.timeline next.0 next.1
                λ x h.
                  edge_row advance_order raw x _
                    (step_to-SameOrder now raw.timeline next.0 next.1 x) h
                    (advance_map-edge raw.status next.0 next.1 e))
              λ _ d h.
                notify-Orders (ByAction advance_order) (ByAction-refl advance_order) db raw.user_id
                  next.1 d h

leave_stock-SameOrder :
    (now : ℕ) (mode : LastMileMode) (raw x : Order) → SameOrder x (leave_stock now mode raw x)
leave_stock-SameOrder now mode raw x = record {
  id = refl;
  user_id = refl;
  campus_id = refl;
  items = refl;
  product_amount = refl;
  total_quantity = refl;
  delivery_threshold = refl;
  discount = refl;
  payable_amount = refl;
  delivery_fee = refl;
  coupon_id = refl;
  paid_at = refl;
}

-- A departure changes orders by any relation in which an order that is as it was read leaves the stock room.
pub outbound-Orders :
    (R : Order → Order → Type 0) (same : (x : Order) → R x x) (now id : ℕ) (db : Db)
    → ((raw x : Order) (mode : LastMileMode)
        → find_first (has_order_id id) db.orders ≡ some raw
        → includes (Status.paid ∷ Status.picking ∷ []) raw.status ≡ true
        → is_as_read raw x ≡ true
        → R x (leave_stock now mode raw x))
    → Holds (Orders R same db) (outbound now id db)
unfolding outbound outbound_read
outbound-Orders R same now id db step =
    let Q = Orders R same db in
    Holds-expect Q (find_first (has_order_id id) db.orders) (not_found "订单不存在") (outbound_read now)
      db
      λ raw found.
        let mode = last_mile_mode_for (has_manager_for raw.address.building_id db.staff) in
        let text : String = "已出库，待配送员接单" in
        let stockroom = includes (Status.paid ∷ Status.picking ∷ []) raw.status in
        Holds-require Q stockroom (outbound_failure raw.status)
          (read (λ d. has_manager_for raw.address.building_id d.staff) >>= λ m.
            leave now (last_mile_mode_for m) raw >> notify raw.user_id text)
          db
          λ e.
            Holds-bind Q Q (leave now mode raw) (λ _. notify raw.user_id text) db
              (leave-Orders R same db now mode raw λ x h. step raw x mode found e h)
              λ _ d h. notify-Orders R same db raw.user_id text d h

outbound_row :
    (now : ℕ) (mode : LastMileMode) (raw x : Order)
    → includes (Status.paid ∷ Status.picking ∷ []) raw.status ≡ true
    → is_as_read raw x ≡ true
    → ByAction outbound_order x (leave_stock now mode raw x)
outbound_row now mode raw x e h =
    edge_row outbound_order raw x _ (leave_stock-SameOrder now mode raw x) h
      (outbound-edge raw.status e)

outbound-Moves : (now id : ℕ) (db : Db) → Holds (Moves outbound_order db) (outbound now id db)
outbound-Moves now id db =
    outbound-Orders (ByAction outbound_order) (ByAction-refl outbound_order) now id db
      λ raw x mode _ e h. outbound_row now mode raw x e h

-- A departure of one order: an edge of its action, and only orders with its identifier change their state.
abbrev pub Leaves : ℕ → Order → Order → Type 0
Leaves id x y =
    ByAction outbound_order x y × (is_status x.status y.status || has_order_id id x ≡ true)

pub Leaves-refl : (id : ℕ) (x : Order) → Leaves id x x
Leaves-refl id x = (ByAction-refl outbound_order x, rw (is_status_refl x.status) refl)

pub outbound-Leaves :
    (now id : ℕ) (db : Db) → Pairs (Leaves id) db.orders (transaction (outbound now id) db).orders
outbound-Leaves now id db =
    Holds-transaction (Orders (Leaves id) (Leaves-refl id) db) (outbound now id) db
      (Pairs-refl (Leaves id) (Leaves-refl id) db.orders)
      (outbound-Orders (Leaves id) (Leaves-refl id) now id db λ raw x mode found e h.
        let own = find_first-sat (has_order_id id) db.orders found in
        (
          outbound_row now mode raw x e h,
          or_right (is_status x.status Status.waiting_first_mile) (has_order_id id x)
              (ground arith),
        ))

abbrev pub staff_action : Bool → OrderAction
staff_action complete = if complete then staff_complete else staff_deliver

staff_step-Moves :
    (now : ℕ) (complete : Bool) (o : Order) (db : Db)
    → Holds (Moves (staff_action complete) db) (staff_step now complete o db)
unfolding staff_step
staff_step-Moves now complete o db =
    let a = staff_action complete in
    let Q = Moves a db in
    let go = λ (t : Status). move_order now o o.timeline t (status_text_of t) in
    Holds-require Q (campus_staff_delivery db (some o.campus_id)) (bad_request "该校区为骑手配送模式，无员工配送操作")
      (expect (staff_next complete o.status) (staff_failure o.status) >>= go) db
      λ _. Holds-expect Q (staff_next complete o.status) (staff_failure o.status) go db λ t e.
        move_order-Orders (ByAction a) (ByAction-refl a) db now o o.timeline t (status_text_of t)
          λ x h.
            edge_row a o x _ (step_to-SameOrder now o.timeline t (status_text_of t) x) h
              (staff_next-edge complete o.status t e)

close_order-SameOrder : (text : String) (x : Order) → SameOrder x (close_order text x)
close_order-SameOrder text x = record {
  id = refl;
  user_id = refl;
  campus_id = refl;
  items = refl;
  product_amount = refl;
  total_quantity = refl;
  delivery_threshold = refl;
  discount = refl;
  payable_amount = refl;
  delivery_fee = refl;
  coupon_id = refl;
  paid_at = refl;
}

pending-edge :
    (id : ℕ) (text : String) (x : Order)
    → is_pending id x ≡ true
    → ByAction cancel_order x (close_order text x)
pending-edge id text x h =
    let s : x.status ≡ Status.pending_payment =
      is_status-eq x.status Status.pending_payment (ground arith) in
    (close_order-SameOrder text x, rw s refl)

cancel-Moves : (user_id id : ℕ) (db : Db) → Holds (Moves cancel_order db) (cancel user_id id db)
unfolding cancel cancel_read
cancel-Moves user_id id db =
    let R = ByAction cancel_order in
    let same = ByAction-refl cancel_order in
    let Q = Moves cancel_order db in
    Holds-expect Q (find_first (is_order_of user_id id) db.orders) (not_found "订单不存在") cancel_read
      db
      λ raw _. cancel_read-Holds raw db Q (
        Holds-won Q (count_where (is_pending raw.id) db.orders) (bad_request "订单状态已变化")
          (release_coupon raw.coupon_id) _
          (release_coupon-orders raw.coupon_id (Pairs R db.orders) _ (
            Pairs-update R same (is_pending raw.id) (close_order "订单已取消") db.orders
              λ x h. pending-edge raw.id "订单已取消" x h)))

make_exception-SameOrder : (x : Order) → SameOrder x (make_exception x)
make_exception-SameOrder x = record {
  id = refl;
  user_id = refl;
  campus_id = refl;
  items = refl;
  product_amount = refl;
  total_quantity = refl;
  delivery_threshold = refl;
  discount = refl;
  payable_amount = refl;
  delivery_fee = refl;
  coupon_id = refl;
  paid_at = refl;
}

exception-edge :
    (s : Status)
    → is_status s Status.exception || includes (Status.exception ∷ []) Status.exception ≡ true
exception-edge s = ground arith

exception-Moves : (id : ℕ) (db : Db) → Holds (Moves mark_exception db) (mark_order_exception id db)
unfolding mark_order_exception
exception-Moves id db =
    Pairs-update (ByAction mark_exception) (ByAction-refl mark_exception) (has_order_id id)
      make_exception db.orders λ x h. (make_exception-SameOrder x, exception-edge x.status)

act-Moves : (now : ℕ) (a : OrderAction) (o : Order) (db : Db) → Holds (Moves a db) (act now a o db)
unfolding act
act-Moves now cancel_order o db = cancel-Moves o.user_id o.id db
act-Moves now advance_order o db = advance-Moves now o.user_id o.id db
act-Moves now outbound_order o db = outbound-Moves now o.id db
act-Moves now mark_exception o db = exception-Moves o.id db
act-Moves now staff_deliver o db = staff_step-Moves now false o db
act-Moves now staff_complete o db = staff_step-Moves now true o db
act-Moves now unknown o db = tt

-- Whatever the back office does with an order, each order of the database keeps its state or takes an edge
-- of that action from its state, and keeps its owner, campus, lines, amounts and coupon.
pub order_action-ByAction :
    (now id : ℕ) (a : OrderAction) (scope : Option ℕ) (db : Db)
    → Pairs (ByAction a) db.orders (transaction (order_action now id a scope) db).orders
unfolding order_action read_order
order_action-ByAction now id a scope db =
    Holds-transaction (Moves a db) (order_action now id a scope) db (Moves-refl a db) (
      Holds-expect (Moves a db)
        (find_first (λ o. has_order_id id o && is_visible scope o) db.orders) (not_found "订单不存在")
        (act now a) db λ o _. act-Moves now a o db)
