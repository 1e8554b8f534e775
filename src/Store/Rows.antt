-- ===== src/Store/Rows.antt =====
-- prisma/schema.prisma: the rows that the modelled services read and write. Texts that are only
-- compared (identifiers, building names, months) are numbers, amounts are cents, times milliseconds;
-- a column that no modelled code reads is left out.
use Prim.Native.String.{String}
use buchuqin_api.Prelude.{ℕ, ℤ, Bool, List, Option}
use buchuqin_api.Common.Status.{Status}
use buchuqin_api.Common.Timeline.{TimelineStep}
use buchuqin_api.Common.RefundAmount.{RefundSource}

pub data DeliveryMode : Type 0 where
  instant scheduled : DeliveryMode

pub data ProcurementMode : Type 0 where
  hq local : ProcurementMode

pub data CostSource : Type 0 where
  hq local legacy : CostSource

pub data LastMileMode : Type 0 where
  building_manager customer_pickup : LastMileMode

pub data StaffRole : Type 0 where
  building_manager intern_building_manager fulltime_rider parttime_rider : StaffRole

pub data UserCouponStatus : Type 0 where
  claimed locked used released : UserCouponStatus

pub data CouponTrigger : Type 0 where
  manual lottery signup : CouponTrigger

pub data CouponKind : Type 0 where
  platform partner : CouponKind

pub data RefundStatus : Type 0 where
  pending approved refunding refunded rejected failed cancelled : RefundStatus

pub data CommissionMode : Type 0 where
  per_order rate : CommissionMode

pub data CommissionKind : Type 0 where
  commission adjustment : CommissionKind

pub data CommissionStatus : Type 0 where
  pending settled adjusted : CommissionStatus

-- A JSON column that holds a list of names: the empty value, an array with each of its elements if
-- that is a text, or a value of another form.
pub data Json : Type 0 where
  null scalar : Json
  array : List (Option ℕ) → Json

pub data OrgDeliveryMode : Type 0 where
  rider_delivery staff_delivery : OrgDeliveryMode

-- What a service asks the clock: the time, the starts of the week and of the month, the month itself,
-- and the minute of the day in Beijing.
pub record Clock : Type 0 where
  pub now : ℕ
  pub week_start : ℕ
  pub month_start : ℕ
  pub period : ℕ
  pub minute : ℕ

-- An AppID is `none` where the column is empty.
pub record Organization : Type 0 where
  pub id : ℕ
  pub wx_app_id : Option ℕ
  pub delivery_wx_app_id : Option ℕ
  pub delivery_mode : OrgDeliveryMode
  pub capabilities : Json

pub record User : Type 0 where
  pub id : ℕ
  pub campus_id : ℕ

pub record Campus : Type 0 where
  pub id : ℕ
  pub active : Bool  -- `status = 'active'`
  pub is_shop : Bool  -- `type = 'campus'`
  pub organization_id : Option ℕ
  pub features : Json
  pub delivery_fee_instant : ℕ
  pub delivery_fee_scheduled : ℕ
  pub delivery_threshold : ℕ
  pub close_start : Option ℕ  -- minutes of the day
  pub close_end : Option ℕ
  pub manual_closed : Bool
  pub manager_commission_mode : CommissionMode
  pub manager_commission_rate : ℕ
  pub refund_fee_early : Bool  -- `refundDeliveryFeeBeforeArrive`
  pub auto_outbound_enabled : Bool
  pub auto_outbound_delay : ℕ  -- `autoOutboundDelaySeconds`

pub record Staff : Type 0 where
  pub id : ℕ
  pub campus_id : ℕ
  pub role : StaffRole
  pub deleted : Bool  -- `status = 'deleted'`
  pub building_id : Option ℕ
  pub building : ℕ

pub record Address : Type 0 where
  pub id : ℕ
  pub user_id : ℕ
  pub campus_id : ℕ
  pub building_id : Option ℕ
  pub building_name : ℕ  -- 0 stands for the empty name
  pub is_default : Bool
  pub label : String  -- the building's name and the room, as the timeline shows them

-- `purchaseLimit`; the window of `weekly` and `monthly` starts with the week or the month.
pub data PurchaseLimit : Type 0 where
  unlimited once weekly monthly : PurchaseLimit

pub record Product : Type 0 where
  pub id : ℕ
  pub campus_id : ℕ
  pub price : ℕ
  pub on_sale : Bool
  pub stock : ℕ
  pub locked_stock : ℕ
  pub sales : ℕ  -- the column `sales` is `sales` less `returned`, and may be negative
  pub returned : ℕ
  pub procurement_mode : Option ProcurementMode
  pub cost_price : ℕ
  pub wholesale_price : ℕ
  pub local_purchase_price : Option ℕ
  pub units_per_case : ℕ
  pub purchase_limit : PurchaseLimit
  pub purchase_limit_qty : ℕ

pub record OrderLine : Type 0 where
  pub product_id : ℕ
  pub price : ℕ
  pub quantity : ℕ
  pub unit_gross_cost : Option ℕ
  pub cost_source : Option CostSource
  pub unit_wholesale_cost : Option ℕ
  pub unit_purchase_cost : Option ℕ
  pub units_per_case : Option ℕ

pub record Proof : Type 0 where
  pub images : List String
  pub location : String
  pub remark : String
  pub time : ℕ

-- The `package` column; a missing object is the one with no field set.
pub record Package : Type 0 where
  pub status : Option String
  pub last_mile_mode : Option LastMileMode
  pub proof : Option Proof
  pub handover_images : Option (List String × ℕ)

pub record Order : Type 0 where
  pub id : ℕ
  pub rider_id : Option ℕ
  pub user_id : ℕ
  pub campus_id : ℕ
  pub status : Status
  pub status_text : String
  pub created_at : ℕ
  pub paid_at : Option ℕ
  pub address : Address
  pub delivery_mode : DeliveryMode
  pub coupon_id : Option ℕ  -- a `UserCoupon`
  pub items : List OrderLine
  pub product_amount : ℕ
  pub total_quantity : ℕ
  pub delivery_threshold : ℕ
  pub delivery_fee : ℕ
  pub discount : ℕ
  pub payable_amount : ℕ
  pub timeline : List TimelineStep
  pub parcel : Package  -- the column `package`
  pub stock_restored : Bool

pub record CartItem : Type 0 where
  pub user_id : ℕ
  pub product_id : ℕ
  pub quantity : ℕ
  pub as_seckill : Bool

pub record Coupon : Type 0 where
  pub id : ℕ
  pub campus_id : ℕ
  pub kind : CouponKind
  pub trigger : CouponTrigger
  pub amount : ℕ
  pub threshold : ℕ
  pub total : Option ℕ
  pub active : Bool  -- `status = 'active'`
  pub expires_at : Option ℕ
  pub per_user_limit : ℕ
  pub targeted_only : Bool
  pub issued : ℕ
  pub claimed : ℕ
  pub used : ℕ

pub record UserCoupon : Type 0 where
  pub id : ℕ
  pub user_id : ℕ
  pub coupon_id : ℕ
  pub status : UserCouponStatus

-- An item is known within its refund by its product, of which a refund has one item.
pub record RefundItem : Type 0 where
  pub product_id : ℕ
  pub unit_price : ℕ
  pub quantity : ℕ
  pub amount : ℕ

pub record Refund : Type 0 where
  pub id : ℕ
  pub user_id : ℕ
  pub order_id : ℕ
  pub source : RefundSource
  pub amount : ℕ
  pub before_status : Status
  pub status : RefundStatus
  pub fee_included : Bool  -- `refundDeliveryFee`
  pub items : List RefundItem

pub record Commission : Type 0 where
  pub staff_id : ℕ
  pub order_id : ℕ
  pub campus_id : ℕ
  pub amount : ℤ
  pub kind : CommissionKind
  pub status : CommissionStatus
  pub fallback : Bool
  pub period : ℕ
  pub remark : String

pub data PromotionKind : Type 0 where
  seckill clearance : PromotionKind

pub record Promotion : Type 0 where
  pub product_id : ℕ
  pub kind : PromotionKind  -- `type`
  pub price : ℕ
  pub active : Bool  -- `status = 'active'`
  pub starts_at : ℕ
  pub ends_at : ℕ
  pub created_at : ℕ

-- `hours` are the minutes of the day that the label names, if it has that form.
pub record DeliverySlot : Type 0 where
  pub campus_id : ℕ
  pub label : ℕ
  pub hours : Option (ℕ × ℕ)
  pub available : Bool
  pub capacity : ℕ

-- The `type` of a transaction of the stock.
pub data TxnKind : Type 0 where
  stock_in adjust out restock_out restock_in purchase_receive purchase_bad : TxnKind

pub record InventoryTxn : Type 0 where
  pub product_id : ℕ
  pub kind : TxnKind
  pub delta : ℤ

pub record Notification : Type 0 where
  pub user_id : ℕ
  pub title : String

pub record TransferLog : Type 0 where
  pub order_id : ℕ
  pub staff_id : ℕ
  pub from_status : String
