-- ===== src/Fulfillment/Task/Moves.antt =====
-- The state machine that the tasks drive: which changes of state `updateTask` can make.
use buchuqin_api.Prelude.{
  ℕ, ◌≡◌, refl, Bool, true, false, List, [], ◌∷◌, some, ◌||◌, not, if◌then◌else◌, arith,
}
use buchuqin_api.Common.Status.{Status, is_status, includes, is_status-eq}
use buchuqin_api.Store.{Db, transaction, bad_request, write, when, discard}
use buchuqin_api.Store.Holds.{Holds, Holds-won, Holds-won_last, Holds-transaction}
use buchuqin_api.Store.Table.{Pairs, Pairs-refl, Pairs-update, count_where}
use buchuqin_api.Store.Rows.{Staff, Order}
use buchuqin_api.Store.SameOrder.{SameOrder, SameOrder-refl}
use buchuqin_api.Commission.Record.{record_for_delivered}
use buchuqin_api.Fulfillment.Task.Guards.{Holds-step_task, Holds-transfer_task, Holds-act_on_order}
use buchuqin_api.Fulfillment.Steps.{
  Action, accept, transfer, Payload, Move, is_manager, is_pickup, manager_move, rider_move, move_of,
  is_action_delivered,
}
use buchuqin_api.Fulfillment.Task.{
  grab_task, advance_task, finish_task, step_task, run_action, act_on_order, is_mine, is_free,
  is_current, transferable, release_task, log_transfer, release_order, claim_order, advance_order,
}

-- The states that a step may lead to from a state: of a manager, and of a rider, for whom an order that
-- the customer picks up ends downstairs.
abbrev pub manager_targets : Status → List Status
manager_targets Status.first_mile = Status.last_mile ∷ []
manager_targets Status.waiting_handover = Status.last_mile ∷ []
manager_targets Status.last_mile = Status.delivered ∷ Status.exception ∷ []
manager_targets _ = []

abbrev pub rider_targets : Bool → Status → List Status
rider_targets pickup Status.waiting_first_mile = Status.arrived ∷ Status.first_mile ∷ []
rider_targets pickup Status.arrived = Status.first_mile ∷ []
rider_targets true Status.first_mile =
    Status.waiting_handover ∷ Status.delivered ∷ Status.waiting_first_mile ∷ []
rider_targets false Status.first_mile = Status.waiting_handover ∷ Status.waiting_first_mile ∷ []
rider_targets pickup Status.waiting_handover = Status.waiting_first_mile ∷ []
rider_targets pickup _ = []

abbrev pub is_edge : Bool → Bool → Status → Status → Bool
is_edge manager pickup s t =
    is_status s t || includes (if manager then manager_targets s else rider_targets pickup s) t

abbrev pub Follows : Bool → Bool → Order → Order → Type 0
Follows manager pickup x y = SameOrder x y × (is_edge manager pickup x.status y.status ≡ true)

claim_order-SameOrder : (staff : Staff) (x : Order) → SameOrder x (claim_order staff x)
claim_order-SameOrder staff x = record {
  id = refl;
  user_id = refl;
  campus_id = refl;
  items = refl;
  product_amount = refl;
  total_quantity = refl;
  delivery_threshold = refl;
  discount = refl;
  payable_amount = refl;
  delivery_fee = refl;
  coupon_id = refl;
  paid_at = refl;
}

release_order-SameOrder : (now : ℕ) (o x : Order) → SameOrder x (release_order now o x)
release_order-SameOrder now o x = record {
  id = refl;
  user_id = refl;
  campus_id = refl;
  items = refl;
  product_amount = refl;
  total_quantity = refl;
  delivery_threshold = refl;
  discount = refl;
  payable_amount = refl;
  delivery_fee = refl;
  coupon_id = refl;
  paid_at = refl;
}

advance_order-SameOrder :
    (now : ℕ) (o : Order) (a : Action) (p : Payload) (m : Move) (x : Order)
    → SameOrder x (advance_order now o a p m x)
advance_order-SameOrder now o a p m x = record {
  id = refl;
  user_id = refl;
  campus_id = refl;
  items = refl;
  product_amount = refl;
  total_quantity = refl;
  delivery_threshold = refl;
  discount = refl;
  payable_amount = refl;
  delivery_fee = refl;
  coupon_id = refl;
  paid_at = refl;
}

is_edge_refl : (m p : Bool) (s : Status) → is_edge m p s s ≡ true
is_edge_refl m p s = ground arith

Follows-refl : (m p : Bool) (x : Order) → Follows m p x x
Follows-refl m p x = (SameOrder-refl x, is_edge_refl m p x.status)

-- A step that the tables allow is an edge.
manager_move-edge :
    (p : Bool) (a : Action) (s : Status) (m : Move)
    → manager_move a ≡ some m
    → includes m.from_ s ≡ true
    → is_edge true p s m.status ≡ true
unfolding manager_move
manager_move-edge p a s m e h = ground arith

rider_move-edge :
    (p : Bool) (a : Action) (s : Status) (m : Move)
    → rider_move s p a ≡ some m
    → includes m.from_ s ≡ true
    → is_edge false p s m.status ≡ true
unfolding rider_move
rider_move-edge p a s m e h = ground arith

-- The commissions that a delivery writes are no orders.
Holds-record :
    (Q : List Order → Type 0) (b : Bool) (period : ℕ) (o : Order) (db : Db)
    → Q db.orders
    → Holds (λ db'. Q db'.orders) (when b (discard (record_for_delivered period o)) db)
unfolding record_for_delivered
Holds-record Q true period o db h = h
Holds-record Q false period o db h = h

module _ (now period : ℕ) (staff : Staff) (o : Order) where
  abbrev StepOf : Order → Order → Type 0
  StepOf = Follows (is_manager staff.role) (is_pickup o.parcel.last_mile_mode)

  -- The orders that may have come of those of `db`.
  abbrev Moved : Db → Db → Type 0
  Moved db db' = Pairs StepOf db.orders db'.orders

  step_refl : (x : Order) → StepOf x x
  step_refl = Follows-refl (is_manager staff.role) (is_pickup o.parcel.last_mile_mode)

  grab_task-Moved : (db : Db) → Holds (Moved db) (grab_task staff o db)
  unfolding grab_task
  grab_task-Moved db = Holds-won_last (Moved db) (count_where (is_free o.id) db.orders) _ _ (
      Pairs-update StepOf step_refl (is_free o.id) (claim_order staff) db.orders
        (λ x h. (claim_order-SameOrder staff x, is_edge_refl _ _ x.status)))

  abbrev AdvanceAllowed : Move → Type 0
  AdvanceAllowed m =
      is_edge (is_manager staff.role) (is_pickup o.parcel.last_mile_mode) o.status m.status ≡ true

  advance_row :
      (a : Action) (p : Payload) (m : Move) (x : Order)
      → AdvanceAllowed m
      → is_current o staff x ≡ true
      → StepOf x (advance_order now o a p m x)
  advance_row a p m x e h =
      let same : x.status ≡ o.status = is_status-eq x.status o.status (ground arith) in
      (advance_order-SameOrder now o a p m x, rw same e)

  advance_task-Moved :
      (a : Action) (p : Payload) (m : Move) (db : Db)
      → AdvanceAllowed m
      → Holds (Moved db) (advance_task now period staff o a p m db)
  unfolding advance_task
  advance_task-Moved a p m db e =
      let rows =
        Pairs-update StepOf step_refl (is_current o staff) (advance_order now o a p m) db.orders
          (λ x h. advance_row a p m x e h) in
      Holds-won (Moved db) (count_where (is_current o staff) db.orders) _ _ _ (
        Holds-record (Pairs StepOf db.orders) (is_action_delivered a) period
          (record o { status = m.status }) _ rows)

  finish_task-Moved :
      (a : Action) (p : Payload) (m : Move) (db : Db)
      → AdvanceAllowed m
      → Holds (Moved db) (finish_task now period staff o a p m db)
  unfolding finish_task
  finish_task-Moved accept p m db e = grab_task-Moved db
  finish_task-Moved a p m db e = advance_task-Moved a p m db e

  move_of-edge :
      (manager pickup : Bool) (s : Status) (a : Action) (m : Move)
      → move_of manager s pickup a ≡ some m
      → includes m.from_ s ≡ true
      → is_edge manager pickup s m.status ≡ true
  move_of-edge true pickup s a m e h = manager_move-edge pickup a s m e h
  move_of-edge false pickup s a m e h = rider_move-edge pickup a s m e h

  step_task-Moved :
      (a : Action) (p : Payload) (db : Db) → Holds (Moved db) (step_task now period staff o a p db)
  step_task-Moved a p db = Holds-step_task now period staff o (Moved db) db a p λ m next inside _ _.
      finish_task-Moved a p m db (
        move_of-edge (is_manager staff.role) (is_pickup o.parcel.last_mile_mode) o.status a m next
          inside)

  transfer_edge :
      (pickup : Bool) (s : Status)
      → includes transferable s ≡ true
      → is_edge false pickup s Status.waiting_first_mile ≡ true
  transfer_edge pickup s h = ground arith

  release_edge :
      (x : Order)
      → not (is_manager staff.role) ≡ true
      → includes transferable o.status ≡ true
      → is_mine o staff.id x ≡ true
      → is_edge
          (is_manager staff.role)
          (is_pickup o.parcel.last_mile_mode)
          x.status
          Status.waiting_first_mile
        ≡ true
  release_edge x rider open_ h =
      let same : x.status ≡ o.status = is_status-eq x.status o.status (ground arith) in
      let no_manager : is_manager staff.role ≡ false = ground arith in
      rw (same, no_manager) (transfer_edge (is_pickup o.parcel.last_mile_mode) o.status open_)

  release_task-Moved :
      (db : Db)
      → not (is_manager staff.role) ≡ true
      → includes transferable o.status ≡ true
      → Holds (Moved db) (release_task now staff o db)
  unfolding release_task
  release_task-Moved db rider open_ =
      let rows =
        Pairs-update StepOf step_refl (is_mine o staff.id) (release_order now o) db.orders
          (λ x h. (release_order-SameOrder now o x, release_edge x rider open_ h)) in
      Holds-won (Moved db) (count_where (is_mine o staff.id) db.orders) (bad_request "订单状态已变化，请刷新")
        (write (log_transfer o staff)) _ rows

  run_action-Moved :
      (a : Action) (p : Payload) (db : Db) → Holds (Moved db) (run_action now period staff o a p db)
  unfolding run_action
  run_action-Moved transfer p db =
      Holds-transfer_task now period staff o (Moved db) db
        λ rider _ open_. release_task-Moved db rider open_
  run_action-Moved a p db = step_task-Moved a p db

-- Whatever a person does with an order that was read as `o`, and whatever state the tables have come
-- to since, each order either keeps its state or takes an edge of the person's state machine, and
-- keeps its owner, its campus, its lines, its amounts and its coupon.
pub act_on_order-Follows :
    (now period : ℕ) (staff : Staff) (o : Order) (a : Action) (p : Payload) (db : Db)
    → Pairs
        (Follows (is_manager staff.role) (is_pickup o.parcel.last_mile_mode))
        db.orders
        (transaction (act_on_order now period staff o a p) db).orders
act_on_order-Follows now period staff o a p db =
    Holds-transaction (Moved now period staff o db) (act_on_order now period staff o a p) db
      (Pairs-refl _ (step_refl now period staff o) db.orders)
      (Holds-act_on_order now period staff o (Moved now period staff o db) db a p
        (run_action-Moved now period staff o a p db))
