-- ===== src/Business/Timers/Laws.antt =====
-- The timers move orders along two edges, and change nothing else of what was bought.
use buchuqin_api.Prelude.{
  ℕ, ◌≤◌, ◌≡◌, refl, Bool, true, List, [], ◌∷◌, ◌||◌, ◌&&◌, arith, take, keep, Bool-cases, inl, inr,
}
use buchuqin_api.Common.Status.{Status, is_status, is_status-eq, is_status_refl}
use buchuqin_api.Store.{Db, has_order_id}
use buchuqin_api.Store.Table.{Pairs, Pairs-refl, Pairs-update, Pairs-trans, count_where}
use buchuqin_api.Store.Rows.{Order}
use buchuqin_api.Business.Orders.{is_delivered}
use buchuqin_api.Business.Timers.{
  by_paid_at, delivered_time_of, is_overdue, confirm_order, complete_one, complete_each,
  auto_complete_delivered_orders, auto_outbound_paid_orders,
}
use buchuqin_api.Store.SameOrder.{SameOrder, SameOrder-refl, SameOrder-trans}
use buchuqin_api.Business.Timers.Departures.{Departs}
use buchuqin_api.Business.Timers.Selection.{auto_outbound-Departs}

-- What the first timer may do: nothing, or the completion of a delivered order.
abbrev pub is_completion : Status → Status → Bool
is_completion s t = is_status s t || (is_status s Status.delivered && is_status t Status.completed)

abbrev pub Completes : Order → Order → Type 0
Completes x y = SameOrder x y × (is_completion x.status y.status ≡ true)

is_completion_trans :
    (r s t : Status)
    → is_completion r s ≡ true
    → is_completion s t ≡ true
    → is_completion r t ≡ true
is_completion_trans r s t h k = ground arith

Completes-trans : (x y z : Order) → Completes x y → Completes y z → Completes x z
Completes-trans x y z (h, e) (k, f) =
    (SameOrder-trans x y z h k, is_completion_trans x.status y.status z.status e f)

Completes-refl : (x : Order) → Completes x x
Completes-refl x = (SameOrder-refl x, rw (is_status_refl x.status) refl)

confirm_order-Completes :
    (now : ℕ) (o x : Order) → is_delivered o.id x ≡ true → Completes x (confirm_order now o x)
confirm_order-Completes now o x h =
    let s : x.status ≡ Status.delivered = is_status-eq x.status Status.delivered (ground arith) in
    (
      record {
        id = refl;
        user_id = refl;
        campus_id = refl;
        items = refl;
        product_amount = refl;
        total_quantity = refl;
        delivery_threshold = refl;
        discount = refl;
        payable_amount = refl;
        delivery_fee = refl;
        coupon_id = refl;
        paid_at = refl;
      },
      rw s refl,
    )

complete_one-Completes :
    (now : ℕ) (o : Order) (db : Db) → Pairs Completes db.orders (complete_one now o db).orders
unfolding complete_one
complete_one-Completes now o db =
    elim (Bool-cases (is_overdue now (delivered_time_of o.timeline))) [
      | inl e ↦ rw e (
          Pairs-update Completes Completes-refl (is_delivered o.id) (confirm_order now o) db.orders
            λ x h. confirm_order-Completes now o x h)
      | inr e ↦ rw e (Pairs-refl Completes Completes-refl db.orders)
    ]

complete_each-Completes :
    (now : ℕ) (os : List Order) (db : Db)
    → Pairs Completes db.orders (complete_each now os db).orders
unfolding complete_each
complete_each-Completes now [] db = Pairs-refl Completes Completes-refl db.orders
complete_each-Completes now (o ∷ os) db =
    let d = complete_one now o db in
    Pairs-trans Completes Completes-trans db.orders d.orders (complete_each now os d).orders
      (complete_one-Completes now o db) (complete_each-Completes now os d)

-- A round of the timers, where no two orders have the same identifier: automatic completion completes delivered
-- orders, and automatic departure takes out of the stock room orders that are paid, for at least the delay of
-- an active campus of theirs with automatic departure; every other order keeps its state, and every order its
-- owner, campus, lines, amounts and coupon.
pub timers-Departs :
    (now : ℕ) (db : Db)
    → ((id : ℕ) → count_where (has_order_id id) db.orders ≤ 1)
    → Pairs Completes db.orders (auto_complete_delivered_orders now db).orders
      × Pairs (Departs now db.campuses) db.orders (auto_outbound_paid_orders now db).orders
unfolding auto_complete_delivered_orders
timers-Departs now db single = (
  complete_each-Completes now
      (take 50 (by_paid_at (keep (λ o. is_status o.status Status.delivered) db.orders))) db,
  auto_outbound-Departs now db single,
)
