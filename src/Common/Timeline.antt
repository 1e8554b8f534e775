-- ===== src/Common/Timeline.antt =====
-- src/common/order-state.ts: the progress steps shown for an order.
-- A column that holds no array is the empty timeline here; `now` is the clock's reading in ms.
pub mod Laws
use Prim.Native.String.{String}
use buchuqin_api.Prelude.{
  ℕ, ◌≡◌, refl, ◌⊎◌, inl, inr, Bool, true, false, List, [], ◌∷◌, Option, none, some, ap, arith,
  ◌==◌, if◌then◌else◌, map, ◌≢◌, is_some, Bool-cases, length,
}
use buchuqin_api.Common.Status.{Status}

-- The `key` of a step; `transferred` is appended when a rider hands an order back.
pub data StepKey : Type 0 where
  paid picking first_mile waiting_handover ready_to_deliver last_mile transferred : StepKey

abbrev pub key_code : StepKey → ℕ
key_code StepKey.paid = 0
key_code StepKey.picking = 1
key_code StepKey.first_mile = 2
key_code StepKey.waiting_handover = 3
key_code StepKey.ready_to_deliver = 4
key_code StepKey.last_mile = 5
key_code StepKey.transferred = 6

abbrev pub is_key : StepKey → StepKey → Bool
is_key a b = key_code a == key_code b

pub record TimelineStep : Type 0 where
  pub key : StepKey
  pub title : String
  pub description : String
  pub done : Bool
  pub time : Option ℕ

-- `stepKeyForStatus`
unfoldable pub step_key_for_status : Status → Option StepKey
step_key_for_status Status.paid = some StepKey.paid
step_key_for_status Status.picking = some StepKey.picking
step_key_for_status Status.waiting_first_mile = some StepKey.picking
step_key_for_status Status.arrived = some StepKey.picking
step_key_for_status Status.first_mile = some StepKey.first_mile
step_key_for_status Status.waiting_handover = some StepKey.waiting_handover
step_key_for_status Status.last_mile = some StepKey.ready_to_deliver
step_key_for_status Status.delivered = some StepKey.last_mile
step_key_for_status _ = none

abbrev pub fresh_step : StepKey → String → String → TimelineStep
fresh_step k t d = record { key = k; title = t; description = d; done = false; time = none }

-- `buildOrderTimeline`
unfoldable pub build_order_timeline : String → List TimelineStep
build_order_timeline building_room =
    fresh_step StepKey.paid "支付成功" "订单将进入校园仓"
    ∷ fresh_step StepKey.picking "仓库出库" "拣货出库后等待配送"
    ∷ fresh_step StepKey.first_mile "送往楼下" "配送员取货后展示"
    ∷ fresh_step StepKey.waiting_handover "楼下待交接" "配送员到达楼下，等待楼长交接"
    ∷ fresh_step StepKey.ready_to_deliver "待送到寝室" "楼长已接货，即将送达"
    ∷ fresh_step StepKey.last_mile "送到寝室" building_room
    ∷ []

abbrev pub has_step : StepKey → List TimelineStep → Bool
has_step k [] = false
has_step k (s ∷ ss) = let rest = has_step k ss in if is_key s.key k then true else rest

-- `step.done = true; step.time = now`, at the first step with the key and only if it is not done.
unfoldable pub complete_step : ℕ → StepKey → List TimelineStep → List TimelineStep
complete_step now k [] = []
complete_step now k (s ∷ ss) =
    let rest = complete_step now k ss in
    if is_key s.key k
    then (if s.done then s else record s { done = true; time = some now }) ∷ ss
    else s ∷ rest

-- `if (last && !last.time) last.time = now`
unfoldable pub stamp_last : ℕ → List TimelineStep → List TimelineStep
stamp_last now [] = []
stamp_last now (s ∷ []) = (if is_some s.time then s else record s { time = some now }) ∷ []
stamp_last now (s ∷ t ∷ ss) = s ∷ stamp_last now (t ∷ ss)

pub mark_key : ℕ → Option StepKey → List TimelineStep → List TimelineStep
mark_key now none tl = stamp_last now tl
mark_key now (some k) tl = if has_step k tl then complete_step now k tl else stamp_last now tl

-- `markTimelineStep`
unfoldable pub mark_timeline_step : ℕ → List TimelineStep → Status → List TimelineStep
unfolding mark_key
mark_timeline_step now tl status = mark_key now (step_key_for_status status) tl

abbrev pub keys : List TimelineStep → List StepKey
keys = map (λ s. s.key)

-- The time of the last step, which the services read as the time of delivery.
abbrev pub last_time : List TimelineStep → Option ℕ
last_time [] = none
last_time (s ∷ []) = s.time
last_time (s ∷ t ∷ ss) = last_time (t ∷ ss)
