-- ===== src/Business/Timers.antt =====
-- src/business/auto-complete.service.ts and src/business/auto-outbound.service.ts: the two timers over the
-- orders. An exception in one round is written down, and the next order follows.
pub mod Departures
pub mod Selection
pub mod Laws
use Prim.Native.String.{String}
use buchuqin_api.Prelude.{
  ℕ, ◌+◌, ◌*◌, Bool, true, false, List, [], ◌∷◌, Option, none, some, ◌==◌, ◌||◌, ◌&&◌, not, leb,
  ltb, if◌then◌else◌, take, keep,
}
use buchuqin_api.Common.Status
use buchuqin_api.Common.Status.{Status, is_status}
use buchuqin_api.Common.Timeline.{TimelineStep, mark_timeline_step}
use buchuqin_api.Store.{Db, transaction}
use buchuqin_api.Store.Table.{update_many}
use buchuqin_api.Store.Rows.{Order, Campus}
use buchuqin_api.Business.Orders.{is_delivered}
use buchuqin_api.Business.Advance.{outbound}

-- `orderBy: { paidAt: 'asc' }`; the database puts an empty time last.
abbrev pub is_paid_before : Option ℕ → Option ℕ → Bool
is_paid_before none b = false
is_paid_before (some a) none = true
is_paid_before (some a) (some b) = ltb a b

abbrev pub insert_order : Order → List Order → List Order
insert_order o [] = o ∷ []
insert_order o (x ∷ xs) =
    let rest = insert_order o xs in
    if is_paid_before x.paid_at o.paid_at then x ∷ rest else o ∷ x ∷ xs

unfoldable pub by_paid_at : List Order → List Order
by_paid_at [] = []
by_paid_at (o ∷ os) = insert_order o (by_paid_at os)

-- `deliveredTimeOf`: the time of the last step that has one.
abbrev pub later_time : Option ℕ → Option ℕ → Option ℕ
later_time none t = t
later_time (some a) t = some a

unfoldable pub delivered_time_of : List TimelineStep → Option ℕ
delivered_time_of [] = none
delivered_time_of (s ∷ ss) = later_time (delivered_time_of ss) s.time

abbrev pub autocomplete_ms : ℕ
autocomplete_ms = 48 * 3600 * 1000

-- `!deliveredAt || deliveredAt > due`, negated.
abbrev pub is_overdue : ℕ → Option ℕ → Bool
is_overdue now none = false
is_overdue now (some t) = leb (t + autocomplete_ms) now

abbrev pub confirm_order : ℕ → Order → Order → Order
confirm_order now raw x = record x {
  status = Status.completed;
  status_text = "超时自动确认";
  timeline = mark_timeline_step now raw.timeline Status.completed;
}

-- One round of the loop.
unfoldable pub complete_one : ℕ → Order → Db → Db
unfolding delivered_time_of mark_timeline_step
complete_one now o db =
    if is_overdue now (delivered_time_of o.timeline)
    then record db { orders = update_many (is_delivered o.id) (confirm_order now o) db.orders }
    else db

-- The loop of `autoCompleteDeliveredOrders`, each update a transaction of its own.
unfoldable pub complete_each : ℕ → List Order → Db → Db
unfolding complete_one
complete_each now [] db = db
complete_each now (o ∷ os) db = complete_each now os (complete_one now o db)

-- `autoCompleteDeliveredOrders`
unfoldable pub auto_complete_delivered_orders : ℕ → Db → Db
unfolding by_paid_at complete_each
auto_complete_delivered_orders now db =
    complete_each now
      (take 50 (by_paid_at (keep (λ o. is_status o.status Status.delivered) db.orders))) db

-- `paidAt: { lte: due }`, with the delay taken to the other side.
abbrev pub is_paid_since : ℕ → ℕ → Option ℕ → Bool
is_paid_since now delay none = false
is_paid_since now delay (some t) = leb (t + delay) now

abbrev pub is_waiting : ℕ → Campus → Order → Bool
is_waiting now c o =
    (o.campus_id == c.id)
    && is_status o.status Status.paid
    && is_paid_since now (c.auto_outbound_delay * 1000) o.paid_at

unfoldable pub outbound_each : ℕ → List Order → Db → Db
unfolding outbound transaction
outbound_each now [] db = db
outbound_each now (o ∷ os) db = outbound_each now os (transaction (outbound now o.id) db)

unfoldable pub outbound_campuses : ℕ → List Campus → Db → Db
unfolding by_paid_at outbound_each
outbound_campuses now [] db = db
outbound_campuses now (c ∷ cs) db =
    outbound_campuses now cs
      (outbound_each now (take 20 (by_paid_at (keep (is_waiting now c) db.orders))) db)

-- `autoOutboundPaidOrders`
unfoldable pub auto_outbound_paid_orders : ℕ → Db → Db
unfolding outbound_campuses
auto_outbound_paid_orders now db =
    outbound_campuses now (keep (λ c. c.active && c.auto_outbound_enabled) db.campuses) db
