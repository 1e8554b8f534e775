-- ===== src/Common/Status.antt =====
-- src/common/order-state.ts: the states of an order, their phases and the sets built from them.
-- `other` stands for a text in the column that is none of the program's states.
use Prim.Native.String.{String}
use buchuqin_api.Prelude.{
  ℕ, ◌≡◌, ◌↔◌, Bool, true, false, List, [], ◌∷◌, Option, none, some, arith, ◌==◌, ◌||◌,
}

pub data Status : Type 0 where
  pending_payment paid picking waiting_first_mile arrived first_mile waiting_handover : Status
  last_mile delivered completed cancelled exception refunded after_sales other : Status

-- The number of a state, by which states are compared.
abbrev pub status_code : Status → ℕ
status_code pending_payment = 0
status_code paid = 1
status_code picking = 2
status_code waiting_first_mile = 3
status_code arrived = 4
status_code first_mile = 5
status_code waiting_handover = 6
status_code last_mile = 7
status_code delivered = 8
status_code completed = 9
status_code cancelled = 10
status_code exception = 11
status_code refunded = 12
status_code after_sales = 13
status_code other = 14

abbrev pub is_status : Status → Status → Bool
is_status s t = status_code s == status_code t

abbrev pub includes : List Status → Status → Bool
includes [] s = false
includes (t ∷ ts) s = is_status t s || includes ts s

-- `ORDER_STATUSES`
abbrev pub order_statuses : List Status
order_statuses =
    pending_payment ∷ paid ∷ picking ∷ waiting_first_mile ∷ arrived ∷ first_mile ∷ waiting_handover
    ∷ last_mile ∷ delivered ∷ completed ∷ cancelled ∷ exception ∷ refunded ∷ []

-- `ORDER_STATUS_TEXT`; a state outside the table has no text.
unfoldable pub order_status_text : Status → Option String
order_status_text pending_payment = some "等待支付"
order_status_text paid = some "仓库正在接单"
order_status_text picking = some "仓库正在拣货"
order_status_text waiting_first_mile = some "已出库，待配送员接单"
order_status_text arrived = some "配送员已到店"
order_status_text first_mile = some "配送中，骑手送往楼下"
order_status_text waiting_handover = some "已到楼下，等待楼长交接"
order_status_text last_mile = some "楼长送往寝室"
order_status_text delivered = some "已送达寝室"
order_status_text completed = some "已确认收货"
order_status_text cancelled = some "订单已取消"
order_status_text exception = some "履约异常，客服处理中"
order_status_text refunded = some "已退款"
order_status_text _ = none

pub data Phase : Type 0 where
  payment fulfillment done faulted : Phase

-- `PHASE_BY_STATUS` and `statusPhase`; `faulted` is the source's 'exception'.
unfoldable pub status_phase : Status → Phase
status_phase pending_payment = payment
status_phase paid = fulfillment
status_phase picking = fulfillment
status_phase waiting_first_mile = fulfillment
status_phase arrived = fulfillment
status_phase first_mile = fulfillment
status_phase waiting_handover = fulfillment
status_phase last_mile = fulfillment
status_phase delivered = fulfillment
status_phase exception = faulted
status_phase after_sales = faulted
status_phase _ = done

-- `DELIVERING_STATUSES`
abbrev pub delivering_statuses : List Status
delivering_statuses =
    paid ∷ picking ∷ waiting_first_mile ∷ arrived ∷ first_mile ∷ waiting_handover ∷ last_mile
    ∷ delivered ∷ []

-- The comparison decides equality.
pub is_status-eq : (s t : Status) → is_status s t ≡ true → s ≡ t
is_status-eq s t h = ground arith

pub is_status_refl : (s : Status) → is_status s s ≡ true
is_status_refl s = ground arith

-- The tab of the running orders lists exactly the states whose phase is fulfilment.
pub delivering_iff :
    (s : Status) → (includes delivering_statuses s ≡ true) ↔ (status_phase s ≡ fulfillment)
unfolding status_phase
delivering_iff s = ground arith
