-- ===== src/Fulfillment/Task/Deliver.antt =====
-- A delivery: its proof, and the commissions that it leaves.
use buchuqin_api.Prelude.{
  ℕ, ◌≤◌, ◌≡◌, refl, Bool, true, false, Option, none, some, ◌&&◌, not, arith,
}
use mathlib.Core.Option.{some-injective}
use buchuqin_api.Common.Status.{Status, includes}
use buchuqin_api.Store.{
  Db, Tx, ◌>>=◌, ◌>>◌, when, discard, bad_request, Failure, ok, require, forbidden,
}
use buchuqin_api.Store.Holds.{Holds, Holds-won, Holds-with, IsOk, require_pass, won_pass}
use buchuqin_api.Store.Table.{count_where, update_many}
use buchuqin_api.Store.Rows.{Staff, Order}
use buchuqin_api.Commission.Record.{
  record_for_delivered, delivered_row, delivered_targets, manager_of,
}
use buchuqin_api.Commission.Record.Laws.{IsSettled, add_all-IsSettled}
use buchuqin_api.Fulfillment.Task.Guards.{Holds-step_task, Holds-act_on_order, is_proved}
use buchuqin_api.Fulfillment.Steps.{
  Action, delivered, Payload, Move, is_manager, is_pickup, manager_move, rider_move, move_of,
  check_proof, allowed, is_own_building, is_action_delivered,
}
use buchuqin_api.Fulfillment.Task.{
  finish_task, act_on_order, advance_task, advance_order, is_current, is_others, step_task,
  run_action,
}

delivered_state :
    (manager pickup : Bool) (s : Status) (m : Move)
    → move_of manager s pickup delivered ≡ some m
    → m.status ≡ Status.delivered
unfolding manager_move rider_move
delivered_state manager pickup s m e = ground arith

-- The order as the commissions are written for it.
abbrev pub as_delivered : Order → Order
as_delivered o = record o { status = Status.delivered }

advance_task-IsSettled :
    (now period : ℕ) (staff : Staff) (o : Order) (p : Payload) (m : Move) (db : Db)
    → m.status ≡ Status.delivered
    → Holds
        (λ d. IsSettled (as_delivered o) db d.commissions)
        (advance_task now period staff o delivered p m db)
unfolding advance_task record_for_delivered delivered_row delivered_targets manager_of
advance_task-IsSettled now period staff o p m db e =
    let after = record db {
      orders = update_many (is_current o staff) (advance_order now o delivered p m) db.orders;
    } in
    Holds-won (λ d. IsSettled (as_delivered o) db d.commissions)
      (count_where (is_current o staff) db.orders) (bad_request "任务状态已变化，请刷新后重试")
      (when true (discard (record_for_delivered period (record o { status = m.status })))) _
      (add_all-IsSettled period db (as_delivered o) db.commissions)

-- A delivery that succeeds is proved, by photos or (unless the customer picks the order up
-- downstairs) by a remark, and leaves a commission of the order for its rider and for the manager whom the
-- query for its building finds, where it has them.
pub delivered-IsSettled :
    (now period : ℕ) (staff : Staff) (o : Order) (p : Payload) (db : Db)
    → Holds
        (λ after.
          (is_proved delivered (is_pickup o.parcel.last_mile_mode) p ≡ true)
          × IsSettled (as_delivered o) db after.commissions)
        (act_on_order now period staff o delivered p db)
unfolding run_action finish_task
delivered-IsSettled now period staff o p db =
    let P = is_proved delivered (is_pickup o.parcel.last_mile_mode) p ≡ true in
    let Q = λ (d : Db). IsSettled (as_delivered o) db d.commissions in
    Holds-act_on_order now period staff o (λ after. P × Q after) db delivered p
      (Holds-step_task now period staff o (λ after. P × Q after) db delivered p
        λ m next _ _ proved.
          Holds-with P Q (advance_task now period staff o delivered p m db) proved (
            advance_task-IsSettled now period staff o p m db (
              delivered_state (is_manager staff.role) (is_pickup o.parcel.last_mile_mode) o.status m
                next)))

check_proof_pass :
    (a : Action) (pickup : Bool) (p : Payload) (db : Db)
    → is_proved a pickup p ≡ true
    → check_proof a pickup p db ≡ ok tt db
unfolding check_proof
check_proof_pass Action.handover pickup p db h = ground arith
check_proof_pass delivered pickup p db h = ground arith
check_proof_pass a pickup p db h = refl

allowed_pass :
    (next : Option Move) (m : Move) (s : Status) (db : Db)
    → next ≡ some m
    → includes m.from_ s ≡ true
    → allowed next s db ≡ ok m db
unfolding allowed
allowed_pass none m s db e h = cc
allowed_pass (some n) m s db e h = rw (some-injective _ _ e, h)

-- An outcome that is followed by more steps.
then_ :
    {A B : Type 0} (m : Tx A) (k : A → Tx B) (a : A) (db : Db)
    → m db ≡ ok a db
    → (m >>= k) db ≡ k a db
then_ m k a db e = rw (e, ◌>>=◌)

when_returns :
    (b : Bool) (period : ℕ) (o : Order) (db : Db)
    → IsOk (when b (discard (record_for_delivered period o)) db)
unfolding record_for_delivered
when_returns true period o db = tt
when_returns false period o db = tt

advance_task-IsOk :
    (now period : ℕ) (staff : Staff) (o : Order) (a : Action) (p : Payload) (m : Move) (db : Db)
    → 1 ≤ count_where (is_current o staff) db.orders
    → IsOk (advance_task now period staff o a p m db)
unfolding advance_task
advance_task-IsOk now period staff o a p m db h =
    let after = record db {
      orders = update_many (is_current o staff) (advance_order now o a p m) db.orders;
    } in
    let last =
      when (is_action_delivered a)
        (discard (record_for_delivered period (record o { status = m.status }))) in
    rw
      (won_pass (count_where (is_current o staff) db.orders) (bad_request "任务状态已变化，请刷新后重试") last
        after h)
      (when_returns (is_action_delivered a) period (record o { status = m.status }) after)

-- A delivery of an order in one's own building, or in one's own hands, is carried out where the tables
-- allow it, it is proved, and the order is still as it was read.
pub delivered-IsOk :
    (now period : ℕ) (staff : Staff) (o : Order) (p : Payload) (m : Move) (db : Db)
    → not (is_manager staff.role && not (is_own_building staff o.address)) ≡ true
    → move_of (is_manager staff.role) o.status (is_pickup o.parcel.last_mile_mode) delivered
      ≡ some m
    → includes m.from_ o.status ≡ true
    → not (is_others (is_manager staff.role) o.rider_id staff.id) ≡ true
    → is_proved delivered (is_pickup o.parcel.last_mile_mode) p ≡ true
    → 1 ≤ count_where (is_current o staff) db.orders
    → IsOk (act_on_order now period staff o delivered p db)
unfolding act_on_order run_action step_task finish_task
delivered-IsOk now period staff o p m db own next inside mine proved current =
    let pickup = is_pickup o.parcel.last_mile_mode in
    let free = not (is_others (is_manager staff.role) o.rider_id staff.id) in
    let e : Failure = bad_request "任务已被其他配送员接取" in
    let last = λ (n : Move). advance_task now period staff o delivered p n in
    let checked = λ (n : Move). check_proof delivered pickup p >> last n in
    let k = λ (n : Move). require free e >> checked n in
    let steps = move_of (is_manager staff.role) o.status pickup delivered in
    rw
      (
        require_pass (not (is_manager staff.role && not (is_own_building staff o.address)))
            (forbidden "非本楼订单，无权操作") (allowed steps o.status >>= k) db own,
        then_ (allowed steps o.status) k m db (allowed_pass steps m o.status db next inside),
        require_pass free e (checked m) db mine,
        then_ (check_proof delivered pickup p) (λ _. last m) tt db
            (check_proof_pass delivered pickup p db proved),
      )
      (advance_task-IsOk now period staff o delivered p m db current)
