-- ===== src/Commission/Record.antt =====
-- src/commission/commission.service.ts: the commissions written when an order is delivered.
pub mod Laws
use Prim.Native.String.{String}
use buchuqin_api.Prelude.{
  ℕ, ℤ, pos, ◌+◌, ◌-◌, ◌*◌, ◌/◌, Bool, true, false, List, [], ◌∷◌, ◌++◌, Option, none, some, ◌==◌,
  ◌||◌, ◌&&◌, not, if◌then◌else◌, opt_eq, is_some, length,
}
use buchuqin_api.Store.{Db, Tx, ◌>>=◌, ◌>>◌, pure, read, write}
use buchuqin_api.Store.Table.{find_first, count_where}
use buchuqin_api.Store.Rows.{
  Campus, Staff, StaffRole, building_manager, intern_building_manager, Order, Address, DeliveryMode,
  instant, scheduled, CommissionMode, per_order, rate, CommissionKind, Commission, CommissionStatus,
}

abbrev pub kind_code : CommissionKind → ℕ
kind_code CommissionKind.commission = 0
kind_code CommissionKind.adjustment = 1

-- The key `@@unique([orderId, staffId, kind])`.
abbrev pub has_key : ℕ → ℕ → CommissionKind → Commission → Bool
has_key order_id staff_id kind c =
    (c.order_id == order_id) && (c.staff_id == staff_id) && (kind_code c.kind == kind_code kind)

abbrev is_rate : CommissionMode → Bool
is_rate rate = true
is_rate per_order = false

abbrev is_manager_role : Bool → StaffRole → Bool
is_manager_role rate_mode building_manager = true
is_manager_role rate_mode intern_building_manager = rate_mode
is_manager_role rate_mode _ = false

-- `(building = dims.buildingName ?? '')`, and with a building id also a match by it.
abbrev serves_building : Address → Staff → Bool
serves_building a s =
    (is_some a.building_id && opt_eq s.building_id a.building_id) || (s.building == a.building_name)

-- `dims.buildingId || dims.buildingName`
abbrev has_building : Address → Bool
has_building a = is_some a.building_id || not (a.building_name == 0)

-- The query for the building's manager, which is made of an address with a building.
abbrev is_manager_for : Bool → Order → Staff → Bool
is_manager_for rate_mode o s =
    has_building o.address
    && (s.campus_id == o.campus_id)
    && is_manager_role rate_mode s.role
    && not s.deleted
    && serves_building o.address s

fee_of : DeliveryMode → Option Campus → ℕ
fee_of mode none = 0
fee_of instant (some c) = c.delivery_fee_instant
fee_of scheduled (some c) = c.delivery_fee_scheduled

rate_mode_of : Option Campus → Bool
rate_mode_of none = false
rate_mode_of (some c) = is_rate c.manager_commission_mode

rate_of : Option Campus → ℕ
rate_of none = 0
rate_of (some c) = c.manager_commission_rate

-- `Math.round(base * rate / 10000)` of numbers that are not negative. For amounts below 2 ^ 38 the quotient's
-- rounding to 53 binary digits is less than the 10000th part by which a quotient that is no half misses one.
abbrev pub round_rate : ℕ → ℕ → ℕ
round_rate base bp = (base * bp + 5000) / 10_000

-- `max(0, payable - fee)`: the subtraction stops at 0 here as well.
manager_amount : Order → Option Campus → ℕ
unfolding rate_mode_of rate_of fee_of
manager_amount o c =
    if rate_mode_of c
    then round_rate (o.payable_amount - o.delivery_fee) (rate_of c)
    else fee_of o.delivery_mode c

-- `[...new Set([order.riderId, manager?.id].filter(Boolean))]`
unfoldable pub targets_of : Option ℕ → Option ℕ → List ℕ
targets_of none none = []
targets_of (some r) none = r ∷ []
targets_of none (some m) = m ∷ []
targets_of (some r) (some m) = if r == m then r ∷ [] else r ∷ m ∷ []

id_of : Option Staff → Option ℕ
id_of none = none
id_of (some s) = some s.id

remark_of : Bool → String
remark_of true = "订单送达销售提成"
remark_of false = "订单送达配送费"

-- One round of the loop: the row that `create` would write.
unfoldable pub new_commission : ℕ → Order → Option Campus → Option ℕ → ℕ → Commission
unfolding manager_amount remark_of
new_commission period o campus manager staff_id =
    let is_manager = opt_eq (some staff_id) manager in
    record {
      staff_id = staff_id;
      order_id = o.id;
      campus_id = o.campus_id;
      amount = pos (if is_manager then manager_amount o campus else fee_of o.delivery_mode campus);
      kind = CommissionKind.commission;
      status = CommissionStatus.pending;
      fallback = false;
      period = period;
      remark = remark_of (is_manager && rate_mode_of campus);
    }

-- `upsert` with an empty `update`: a row with the key is kept, else the new one is added.
unfoldable pub keep_or_add : Commission → List Commission → List Commission
keep_or_add c rows =
    if count_where (has_key c.order_id c.staff_id c.kind) rows == 0 then rows ++ (c ∷ []) else rows

pub add_all : (ℕ → Commission) → List ℕ → List Commission → List Commission
unfolding keep_or_add
add_all row [] rows = rows
add_all row (s ∷ ss) rows = add_all row ss (keep_or_add (row s) rows)

-- `manager?.id`: the manager that the query finds.
unfoldable pub manager_of : Db → Order → Option ℕ
unfolding id_of rate_mode_of
manager_of db o =
    let campus = find_first (λ (c : Campus). c.id == o.campus_id) db.campuses in
    id_of (find_first (is_manager_for (rate_mode_of campus) o) db.staff)

-- The people that a delivered order pays, and what is written for each.
unfoldable pub delivered_targets : Db → Order → List ℕ
unfolding targets_of
delivered_targets db o = targets_of o.rider_id (manager_of db o)

unfoldable pub delivered_row : ℕ → Db → Order → ℕ → Commission
unfolding new_commission
delivered_row period db o =
    new_commission period o (find_first (λ (c : Campus). c.id == o.campus_id) db.campuses)
      (manager_of db o)

-- `recordForDelivered`; `period` is the month of the clock.
unfoldable pub record_for_delivered : ℕ → Order → Tx ℕ
unfolding add_all delivered_targets delivered_row
record_for_delivered period o = do
  targets ← read (λ db. delivered_targets db o)
  row ← read (λ db. delivered_row period db o)
  write (λ db. record db { commissions = add_all row targets db.commissions })
  pure (length targets)
