-- ===== src/Tests/Sample.antt =====
-- A shop with one organization, one campus, a manager and two riders, and one order.
use buchuqin_api.Prelude.{ℕ, true, false, List, [], ◌∷◌, Option, none, some}
use buchuqin_api.Common.Status.{Status}
use buchuqin_api.Common.Timeline.{StepKey, TimelineStep}
use buchuqin_api.Common.RefundAmount.{after_sale}
use buchuqin_api.Store.{Db}
use buchuqin_api.Store.Rows.{
  Clock, Organization, Campus, Staff, Address, Product, Order, OrderLine, instant, unlimited,
  Refund, RefundStatus, Coupon, UserCoupon, UserCouponStatus, null, per_order, rider_delivery,
  fulltime_rider, building_manager, platform, manual,
}
use buchuqin_api.Fulfillment.Steps.{Payload}

abbrev pub clock : Clock
clock = record { now = 1000; week_start = 0; month_start = 0; period = 5; minute = 600 }

abbrev pub late_clock : Clock
late_clock = record clock { now = 10000000 }

abbrev pub org : Organization
org = record {
  id = 1;
  wx_app_id = some 7;
  delivery_wx_app_id = none;
  delivery_mode = rider_delivery;
  capabilities = null;
}

abbrev pub campus : Campus
campus = record {
  id = 2;
  active = true;
  is_shop = true;
  organization_id = some 1;
  features = null;
  delivery_fee_instant = 200;
  delivery_fee_scheduled = 100;
  delivery_threshold = 2000;
  close_start = none;
  close_end = none;
  manual_closed = false;
  manager_commission_mode = per_order;
  manager_commission_rate = 0;
  refund_fee_early = false;
  auto_outbound_enabled = true;
  auto_outbound_delay = 60;
}

abbrev pub rider : Staff
rider = record {
  id = 11;
  campus_id = 2;
  role = fulltime_rider;
  deleted = false;
  building_id = none;
  building = 0;
}

abbrev pub other_rider : Staff
other_rider = record rider { id = 12 }

abbrev pub manager : Staff
manager = record rider { id = 13; role = building_manager; building_id = some 4 }

abbrev pub address : Address
address = record {
  id = 3;
  user_id = 5;
  campus_id = 2;
  building_id = some 4;
  building_name = 0;
  is_default = true;
  label = "4-101";
}

abbrev pub product : Product
product = record {
  id = 21;
  campus_id = 2;
  price = 500;
  on_sale = true;
  stock = 10;
  locked_stock = 1;
  sales = 0;
  returned = 0;
  procurement_mode = none;
  cost_price = 240;
  wholesale_price = 360;
  local_purchase_price = none;
  units_per_case = 12;
  purchase_limit = unlimited;
  purchase_limit_qty = 0;
}

abbrev pub line : OrderLine
line = record {
  product_id = 21;
  price = 500;
  quantity = 2;
  unit_gross_cost = none;
  cost_source = none;
  unit_wholesale_cost = none;
  unit_purchase_cost = none;
  units_per_case = none;
}

abbrev pub step : StepKey → TimelineStep
step k = record { key = k; title = ""; description = ""; done = false; time = none }

abbrev pub timeline : List TimelineStep
timeline =
    step StepKey.paid ∷ step StepKey.picking ∷ step StepKey.first_mile ∷ step StepKey.last_mile ∷ []

abbrev pub order : Order
order = record {
  id = 31;
  rider_id = none;
  user_id = 5;
  campus_id = 2;
  status = Status.pending_payment;
  status_text = "";
  created_at = 900;
  paid_at = none;
  address = address;
  delivery_mode = instant;
  coupon_id = some 51;
  items = line ∷ [];
  product_amount = 1000;
  total_quantity = 2;
  delivery_threshold = 2000;
  delivery_fee = 200;
  discount = 100;
  payable_amount = 1100;
  timeline = timeline;
  parcel = record { status = none; last_mile_mode = none; proof = none; handover_images = none };
  stock_restored = false;
}

abbrev pub order_in : Status → Option ℕ → Order
order_in s r = record order { status = s; rider_id = r }

abbrev pub coupon : Coupon
coupon = record {
  id = 41;
  campus_id = 2;
  kind = platform;
  trigger = manual;
  amount = 100;
  threshold = 0;
  total = some 3;
  active = true;
  expires_at = none;
  per_user_limit = 1;
  targeted_only = false;
  issued = 1;
  claimed = 1;
  used = 0;
}

abbrev pub held : UserCoupon
held = record { id = 51; user_id = 5; coupon_id = 41; status = UserCouponStatus.locked }

-- The shop with one order, of the state and the rider that are given.
abbrev pub shop_with : Order → Db
shop_with o = record {
  organizations = org ∷ [];
  campuses = campus ∷ [];
  users = [];
  addresses = address ∷ [];
  staff = rider ∷ other_rider ∷ manager ∷ [];
  products = product ∷ [];
  orders = o ∷ [];
  cart_items = [];
  promotions = [];
  delivery_slots = [];
  coupons = coupon ∷ [];
  user_coupons = held ∷ [];
  refunds = [];
  commissions = [];
  inventory_txns = [];
  notifications = [];
  transfer_logs = [];
  next_id = 61;
}

abbrev pub shop : Db
shop = shop_with order

-- A refund of the order that waits for the back office.
abbrev pub refund : Refund
refund = record {
  id = 71;
  user_id = 5;
  order_id = 31;
  source = after_sale;
  amount = 500;
  before_status = Status.delivered;
  status = RefundStatus.pending;
  fee_included = false;
  items = record { product_id = 21; unit_price = 500; quantity = 2; amount = 500 } ∷ [];
}

abbrev pub photo : Payload
photo = record { images = "p" ∷ []; location = none; reason = none }
