-- ===== src/Fulfillment/Steps.antt =====
-- src/fulfillment/fulfillment.service.ts, `updateTask`: the actions, the tables of their steps, and what they
-- write into an order.
use Prim.Native.String.{String}
use buchuqin_api.Prelude.{
  ℕ, Bool, true, false, List, [], ◌∷◌, ◌++◌, Option, none, some, ◌==◌, ◌||◌, ◌&&◌, not,
  if◌then◌else◌, opt_eq, is_some, map,
}
use buchuqin_api.Common.Status.{Status, is_status, includes}
use buchuqin_api.Common.Timeline.{StepKey, TimelineStep}
use buchuqin_api.Store.{Tx, ◌>>◌, pure, require, Failure, bad_request, throw}
use buchuqin_api.Store.Rows.{
  Staff, StaffRole, building_manager, intern_building_manager, fulltime_rider, parttime_rider,
  Address, Package, LastMileMode, customer_pickup,
}

pub data Action : Type 0 where
  accept grab depart arrive handover receive delivered absent refused transfer unknown : Action

pub record TaskId : Type 0 where
  pub role : StaffRole
  pub order : ℕ

-- `TaskActionDto`, without the coordinates.
pub record Payload : Type 0 where
  pub images : List String
  pub location : Option String
  pub reason : Option String

-- A target of a step, with its text and the states it starts from.
pub record Move : Type 0 where
  pub status : Status
  pub text : String
  pub from_ : List Status

abbrev pub role_code : StaffRole → ℕ
role_code building_manager = 0
role_code intern_building_manager = 1
role_code fulltime_rider = 2
role_code parttime_rider = 3

abbrev pub is_manager : StaffRole → Bool
is_manager building_manager = true
is_manager intern_building_manager = true
is_manager _ = false

-- `grab` is `accept`.
abbrev pub action_of : Action → Action
action_of grab = accept
action_of a = a

abbrev pub is_pickup : Option LastMileMode → Bool
is_pickup (some customer_pickup) = true
is_pickup _ = false

-- `isOwnBuilding`
unfoldable pub is_own_building : Staff → Address → Bool
is_own_building s a =
    if is_some a.building_id
    then opt_eq a.building_id s.building_id
    else a.building_name == s.building

abbrev pub move : Status → String → List Status → Option Move
move s t f = some (record { status = s; text = t; from_ = f })

-- The table of the managers' actions.
unfoldable pub manager_move : Action → Option Move
manager_move receive =
    move Status.last_mile "楼长已接货，待送到寝室"
      (Status.waiting_handover ∷ Status.first_mile ∷ Status.last_mile ∷ [])
manager_move delivered = move Status.delivered "已送达寝室" (Status.last_mile ∷ [])
manager_move absent = move Status.exception "用户不在，暂存楼长处" (Status.last_mile ∷ [])
manager_move refused = move Status.exception "用户拒收，待带回仓库" (Status.last_mile ∷ [])
manager_move _ = none

arrive_move : Bool → Option Move
arrive_move true = move Status.arrived "配送员已到店" (Status.waiting_first_mile ∷ [])
arrive_move false = move Status.waiting_handover "已到楼下，等待楼长交接" (Status.first_mile ∷ [])

pickup_move : Bool → Option Move
pickup_move true = move Status.delivered "已送到楼下，待用户确认" (Status.first_mile ∷ [])
pickup_move false = none

-- The table of the riders' actions, at the state of the order and its last mile.
unfoldable pub rider_move : Status → Bool → Action → Option Move
unfolding arrive_move pickup_move
rider_move s pickup accept = move s "配送员已接单" (Status.waiting_first_mile ∷ [])
rider_move s pickup depart =
    move Status.first_mile "配送中，骑手已出发" (Status.waiting_first_mile ∷ Status.arrived ∷ [])
rider_move s pickup arrive = arrive_move (is_status s Status.waiting_first_mile)
rider_move s pickup handover = move s "已与楼长完成交接" (Status.waiting_handover ∷ Status.last_mile ∷ [])
rider_move s pickup delivered = pickup_move pickup
rider_move s pickup _ = none

-- `maps[action]`
abbrev pub move_of : Bool → Status → Bool → Action → Option Move
move_of manager s pickup a = if manager then manager_move a else rider_move s pickup a

unfoldable pub not_allowed : Status → Failure
not_allowed Status.paid = bad_request "订单尚未出库，请先在管理后台完成出库"
not_allowed Status.picking = bad_request "订单尚未出库，请先在管理后台完成出库"
not_allowed _ = bad_request "当前订单状态不能执行此操作"

-- `!next || !next.from.includes(order.status)`
unfoldable pub allowed : Option Move → Status → Tx Move
unfolding not_allowed
allowed none s = throw (not_allowed s)
allowed (some m) s = if includes m.from_ s then pure m else throw (not_allowed s)

abbrev pub is_empty : List String → Bool
is_empty [] = true
is_empty (x ∷ xs) = false

-- Whether an optional text is there and not empty.
abbrev pub has_text : Option String → Bool
has_text none = false
has_text (some String.[]) = false
has_text (some s) = true

abbrev pub or_empty : Option String → String
or_empty none = ""
or_empty (some s) = s

abbrev pub is_action_delivered : Action → Bool
is_action_delivered delivered = true
is_action_delivered _ = false

abbrev pub is_action_handover : Action → Bool
is_action_handover handover = true
is_action_handover _ = false

-- The photos or the remark that a delivery and a handover are proved by.
unfoldable pub check_proof : Action → Bool → Payload → Tx (Unit {0})
check_proof handover pickup p = require (not (is_empty p.images)) (bad_request "请拍摄交接凭证照片")
check_proof delivered pickup p = do
  require (not (is_empty p.images) || has_text p.reason) (bad_request "请上传送达凭证或填写备注")
  require (not (pickup && is_empty p.images)) (bad_request "用户楼下取货必须上传送达凭证照片")
check_proof _ pickup p = pure tt

-- `packageUpdate`
unfoldable pub update_package : ℕ → Action → Payload → Package → Package
update_package now delivered p k = record k {
  status = some "delivered";
  proof = some (record {
    images = p.images;
    location = or_empty p.location;
    remark = or_empty p.reason;
    time = now;
  });
}
update_package now handover p k = record k { handover_images = some (p.images, now) }
update_package now _ p k = k

-- Handing an order back sets the steps of the way to the room to not done.
abbrev pub is_way_step : StepKey → Bool
is_way_step StepKey.first_mile = true
is_way_step StepKey.waiting_handover = true
is_way_step StepKey.ready_to_deliver = true
is_way_step StepKey.last_mile = true
is_way_step _ = false

unfoldable pub transfer_timeline : ℕ → List TimelineStep → List TimelineStep
transfer_timeline now tl =
    map
      (λ (s : TimelineStep).
        if is_way_step s.key then record s { done = false; time = none } else s)
      tl
    ++ (record {
      key = StepKey.transferred;
      title = "配送员调整";
      description = "订单将由其他配送员继续配送";
      done = true;
      time = some now;
    }
        ∷ [])
