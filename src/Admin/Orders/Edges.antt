-- ===== src/Admin/Orders/Edges.antt =====
-- The state machine that the back office drives: which changes of state its actions can make.

use Prim.Native.String.{String}
use buchuqin_api.Prelude.{
  ℕ, ◌≡◌, refl, Bool, true, List, [], ◌∷◌, Option, none, some, ◌||◌, if◌then◌else◌, arith,
}
use buchuqin_api.Common.Status.{Status, is_status, includes, is_status-eq, is_status_refl}
use buchuqin_api.Common.Timeline.{TimelineStep}
use buchuqin_api.Store.{Db, bad_request}
use buchuqin_api.Store.Holds.{Holds, Holds-won, Holds-won_last}
use buchuqin_api.Store.Table.{Pairs, Pairs-update, count_where}
use buchuqin_api.Store.Rows.{Order, LastMileMode}
use buchuqin_api.Business.Orders.{release_coupon}
use buchuqin_api.Business.Refunds.{is_as_read}
use buchuqin_api.Business.Pay.{notify}
use buchuqin_api.Business.Advance.{advance_map, step_to, move_order, leave_stock, leave}
use buchuqin_api.Store.SameOrder.{SameOrder, SameOrder-refl}
use buchuqin_api.Admin.Orders.{
  OrderAction, cancel_order, advance_order, outbound_order, mark_exception, staff_deliver,
  staff_complete, staff_next,
}

-- The states that an action may lead to from a state.
abbrev pub action_targets : OrderAction → Status → List Status
action_targets cancel_order Status.pending_payment = Status.cancelled ∷ []
action_targets advance_order Status.paid = Status.picking ∷ []
action_targets advance_order Status.picking = Status.waiting_first_mile ∷ []
action_targets advance_order Status.waiting_first_mile = Status.first_mile ∷ []
action_targets advance_order Status.first_mile = Status.waiting_handover ∷ []
action_targets advance_order Status.waiting_handover = Status.last_mile ∷ []
action_targets outbound_order Status.paid = Status.waiting_first_mile ∷ []
action_targets outbound_order Status.picking = Status.waiting_first_mile ∷ []
action_targets mark_exception _ = Status.exception ∷ []
action_targets staff_deliver Status.waiting_first_mile = Status.first_mile ∷ []
action_targets staff_complete Status.first_mile = Status.delivered ∷ []
action_targets staff_complete Status.last_mile = Status.delivered ∷ []
action_targets _ _ = []

-- An order before and after: an edge of the action, and nothing else of what was bought.
abbrev pub ByAction : OrderAction → Order → Order → Type 0
ByAction a x y =
    SameOrder x y
    × (is_status x.status y.status || includes (action_targets a x.status) y.status ≡ true)

-- The orders of a database follow a relation.
module _ (R : Order → Order → Type 0) (same : (x : Order) → R x x) (db : Db) where
  abbrev pub Orders : Db → Type 0
  Orders d = Pairs R db.orders d.orders

  pub move_order-Orders :
      (now : ℕ) (raw : Order) (tl : List TimelineStep) (s : Status) (text : String)
      → ((x : Order) → is_as_read raw x ≡ true → R x (step_to now tl s text x))
      → Holds Orders (move_order now raw tl s text db)
  unfolding move_order
  move_order-Orders now raw tl s text step =
      Holds-won_last Orders (count_where (is_as_read raw) db.orders) (bad_request "订单状态已变化") _
        (Pairs-update R same (is_as_read raw) (step_to now tl s text) db.orders step)

  pub notify-Orders : (u : ℕ) (t : String) (d : Db) → Orders d → Holds Orders (notify u t d)
  unfolding notify
  notify-Orders u t d h = h

  pub release_coupon-Orders :
      (id : Option ℕ) (d : Db) → Orders d → Holds Orders (release_coupon id d)
  unfolding release_coupon
  release_coupon-Orders none d h = h
  release_coupon-Orders (some id) d h = h

  pub leave-Orders :
      (now : ℕ) (mode : LastMileMode) (raw : Order)
      → ((x : Order) → is_as_read raw x ≡ true → R x (leave_stock now mode raw x))
      → Holds Orders (leave now mode raw db)
  unfolding leave
  leave-Orders now mode raw step =
      Holds-won Orders (count_where (is_as_read raw) db.orders) (bad_request "订单状态已变化") _ _
        (Pairs-update R same (is_as_read raw) (leave_stock now mode raw) db.orders step)

pub ByAction-refl : (a : OrderAction) (x : Order) → ByAction a x x
ByAction-refl a x = (SameOrder-refl x, rw (is_status_refl x.status) refl)

pub step_to-SameOrder :
    (now : ℕ) (tl : List TimelineStep) (s : Status) (text : String) (x : Order)
    → SameOrder x (step_to now tl s text x)
step_to-SameOrder now tl s text x = record {
  id = refl;
  user_id = refl;
  campus_id = refl;
  items = refl;
  product_amount = refl;
  total_quantity = refl;
  delivery_threshold = refl;
  discount = refl;
  payable_amount = refl;
  delivery_fee = refl;
  coupon_id = refl;
  paid_at = refl;
}

pub or_right : (a b : Bool) → b ≡ true → a || b ≡ true
or_right a b h = ground arith

-- An update of the order that was read, to a state that the table allows.
pub edge_row :
    (a : OrderAction) (raw x y : Order)
    → SameOrder x y
    → is_as_read raw x ≡ true
    → includes (action_targets a raw.status) y.status ≡ true
    → ByAction a x y
edge_row a raw x y same h e =
    let s : x.status ≡ raw.status = is_status-eq x.status raw.status (ground arith) in
    (
      same,
      rw s (
          or_right (is_status raw.status y.status) (includes (action_targets a raw.status) y.status)
            e),
    )

pub advance_map-edge :
    (s t : Status) (text : String)
    → advance_map s ≡ some (t, text)
    → includes (action_targets advance_order s) t ≡ true
unfolding advance_map
advance_map-edge s t text h = ground arith

pub staff_next-edge :
    (complete : Bool) (s t : Status)
    → staff_next complete s ≡ some t
    → includes (action_targets (if complete then staff_complete else staff_deliver) s) t ≡ true
unfolding staff_next
staff_next-edge complete s t h = ground arith

pub outbound-edge :
    (s : Status)
    → includes (Status.paid ∷ Status.picking ∷ []) s ≡ true
    → includes (action_targets outbound_order s) Status.waiting_first_mile ≡ true
outbound-edge s h = ground arith
