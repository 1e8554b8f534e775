-- ===== src/Fulfillment/Task.antt =====
-- src/fulfillment/fulfillment.service.ts: `updateTask` and `scanArrive`.
-- A task's id is the text `task-<role>-<order>`; here it is its two parts. The pushes that follow the
-- transaction change nothing in the database and are left out.
pub mod Guards
pub mod Moves
pub mod Grab
pub mod Deliver
use Prim.Native.String.{String}
use buchuqin_api.Prelude.{
  ℕ, suc, zero, Bool, true, false, List, [], ◌∷◌, ◌++◌, Option, none, some, ◌==◌, ◌||◌, ◌&&◌, not,
  if◌then◌else◌, opt_eq, is_some, map,
}
use buchuqin_api.Common.Status
use buchuqin_api.Common.Status.{Status, is_status, includes, order_status_text}
use buchuqin_api.Common.Timeline.{StepKey, TimelineStep, mark_timeline_step}
use buchuqin_api.Store.{
  Db, Tx, ◌>>=◌, ◌>>◌, pure, read, write, require, expect, when, Failure, not_found, bad_request,
  forbidden, conflict, throw, update_orders, won, discard, find_order,
}
use buchuqin_api.Store.Table.{find_first}
use buchuqin_api.Store.Rows.{
  Staff, StaffRole, building_manager, intern_building_manager, fulltime_rider, parttime_rider,
  Order, Address, Package, Proof, LastMileMode, customer_pickup, TransferLog,
}
use buchuqin_api.Tenancy.{campus_staff_delivery}
use buchuqin_api.Commission.Record.{record_for_delivered}
use buchuqin_api.Fulfillment.Steps.{
  Action, Move, Payload, TaskId, absent, accept, action_of, allowed, arrive, check_proof, delivered,
  depart, grab, handover, has_text, is_action_delivered, is_action_handover, is_empty, is_manager,
  is_own_building, is_pickup, is_way_step, manager_move, move, move_of, not_allowed, or_empty,
  receive, refused, rider_move, role_code, transfer, transfer_timeline, unknown, update_package,
}

abbrev pub transferable : List Status
transferable = Status.waiting_first_mile ∷ Status.first_mile ∷ Status.waiting_handover ∷ []

-- The rows that a rider's step may change: the order, in the state that was read, and the rider's own.
abbrev pub is_mine : Order → ℕ → Order → Bool
is_mine o staff_id x =
    (x.id == o.id) && is_status x.status o.status && opt_eq x.rider_id (some staff_id)

abbrev pub release_order : ℕ → Order → Order → Order
release_order now o x = record x {
  status = Status.waiting_first_mile;
  rider_id = none;
  status_text = "已出库，待配送员接单";
  timeline = transfer_timeline now o.timeline;
}

abbrev pub log_transfer : Order → Staff → Db → Db
log_transfer o staff db = record db {
  transfer_logs =
      db.transfer_logs
      ++ (record { order_id = o.id; staff_id = staff.id; from_status = o.status_text } ∷ []);
}

-- The writes of `transfer`; `o` is the order as it was read.
unfoldable pub release_task : ℕ → Staff → Order → Tx (Unit {0})
release_task now staff o = do
  released ← update_orders (is_mine o staff.id) (release_order now o)
  won released (bad_request "订单状态已变化，请刷新")
  write (log_transfer o staff)

-- The branch of `transfer`.
unfoldable pub transfer_task : ℕ → Staff → Order → Tx (Unit {0})
unfolding release_task
transfer_task now staff o = do
  require (not (is_manager staff.role)) (bad_request "楼长任务无需转单")
  require (opt_eq o.rider_id (some staff.id)) (bad_request "仅可转单自己接取的任务")
  require (includes transferable o.status) (bad_request "当前订单状态不能转单")
  release_task now staff o

-- The rows that a grab may take: the order, waiting and with no rider.
abbrev pub is_free : ℕ → Order → Bool
is_free id x =
    (x.id == id) && not (is_some x.rider_id) && is_status x.status Status.waiting_first_mile

abbrev pub claim_order : Staff → Order → Order
claim_order staff x = record x { rider_id = some staff.id; status_text = "配送员已接单" }

unfoldable pub grab_task : Staff → Order → Tx (Unit {0})
grab_task staff o = do
  taken ← update_orders (is_free o.id) (claim_order staff)
  won taken (bad_request "任务已被其他配送员接取")

-- The rows that an ordinary step may change.
abbrev pub is_current : Order → Staff → Order → Bool
is_current o staff x =
    (x.id == o.id)
    && is_status x.status o.status
    && (is_manager staff.role || opt_eq x.rider_id (some staff.id))

abbrev pub advance_order : ℕ → Order → Action → Payload → Move → Order → Order
advance_order now o action payload next x = record x {
  status = next.status;
  status_text = next.text;
  timeline = mark_timeline_step now o.timeline next.status;
  parcel = update_package now action payload o.parcel;
}

unfoldable pub advance_task :
    (now period : ℕ) → Staff → Order → Action → Payload → Move → Tx (Unit {0})
advance_task now period staff o action payload next = do
  changed ← update_orders (is_current o staff) (advance_order now o action payload next)
  won changed (bad_request "任务状态已变化，请刷新后重试")
  when (is_action_delivered action)
      (discard (record_for_delivered period (record o { status = next.status })))

pub finish_task : (now period : ℕ) → Staff → Order → Action → Payload → Move → Tx (Unit {0})
unfolding grab_task advance_task
finish_task now period staff o accept payload next = grab_task staff o
finish_task now period staff o action payload next =
    advance_task now period staff o action payload next

-- `!manager && order.riderId && order.riderId !== staffId`
abbrev pub is_others : Bool → Option ℕ → ℕ → Bool
is_others true rider staff_id = false
is_others false none staff_id = false
is_others false (some r) staff_id = not (r == staff_id)

-- The steps other than `transfer`.
unfoldable pub step_task : (now period : ℕ) → Staff → Order → Action → Payload → Tx (Unit {0})
unfolding allowed check_proof finish_task
step_task now period staff o action payload = do
  let pickup = is_pickup o.parcel.last_mile_mode
  next ← allowed (move_of (is_manager staff.role) o.status pickup action) o.status
  require (not (is_others (is_manager staff.role) o.rider_id staff.id)) (bad_request "任务已被其他配送员接取")
  check_proof action pickup payload
  finish_task now period staff o action payload next

pub run_action : (now period : ℕ) → Staff → Order → Action → Payload → Tx (Unit {0})
unfolding transfer_task step_task
run_action now period staff o transfer payload = transfer_task now staff o
run_action now period staff o action payload = step_task now period staff o action payload

-- The transaction of `updateTask` from the point where the order `o` has been read.
unfoldable pub act_on_order : (now period : ℕ) → Staff → Order → Action → Payload → Tx (Unit {0})
unfolding run_action is_own_building
act_on_order now period staff o action payload = do
  require (not (is_manager staff.role && not (is_own_building staff o.address)))
      (forbidden "非本楼订单，无权操作")
  run_action now period staff o action payload

abbrev pub find_staff : ℕ → Db → Option Staff
find_staff id db = find_first (λ (s : Staff). s.id == id) db.staff

-- `updateTask`
unfoldable pub update_task : (now period : ℕ) → ℕ → TaskId → Action → Payload → Tx (Unit {0})
unfolding act_on_order
update_task now period staff_id id raw_action payload = do
  row ← read (find_staff staff_id)
  staff ← expect row (not_found "履约人员不存在")
  by_staff ← read (λ db. campus_staff_delivery db (some staff.campus_id))
  require (not by_staff) (bad_request "该校区为后台员工配送模式，骑手端无配送任务")
  require (role_code id.role == role_code staff.role) (not_found "履约任务不存在")
  found ← read λ db.
      find_first (λ (o : Order). (o.id == id.order) && (o.campus_id == staff.campus_id)) db.orders
  o ← expect found (not_found "履约任务不存在")
  act_on_order now period staff o (action_of raw_action) payload

-- `scanArrive`, from the order's number, which is looked up by its identifier here; an empty code is
-- `none`.
unfoldable pub scan_arrive : ℕ → ℕ → Option ℕ → Tx (Unit {0})
scan_arrive now staff_id order_no = do
  no_ ← expect order_no (bad_request "缺少订单号（扫码内容为空）")
  row ← read (find_staff staff_id)
  staff ← expect row (not_found "履约人员不存在")
  by_staff ← read (λ db. campus_staff_delivery db (some staff.campus_id))
  require (not by_staff) (bad_request "该校区为后台员工配送模式，骑手端无配送任务")
  found ←
      read λ db.
        find_first (λ (o : Order). (o.id == no_) && (o.campus_id == staff.campus_id)) db.orders
  o ← expect found (not_found "订单不存在")
  require (opt_eq o.rider_id (some staff_id)) (bad_request "请先接单后再到店扫码")
  changed ←
      update_orders
        (λ x.
          (x.id == o.id)
          && is_status x.status Status.waiting_first_mile
          && opt_eq x.rider_id (some staff_id))
        λ x. record x {
          status = Status.arrived;
          status_text = "配送员已到店";
          timeline = mark_timeline_step now o.timeline Status.arrived;
        }
  won changed (conflict "当前订单状态不能重复到店确认")
