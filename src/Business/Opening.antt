-- ===== src/Business/Opening.antt =====
-- src/business/business.service.ts: when a campus takes orders (`isClosedNow`, `throwIfCampusClosed`) and
-- when a slot of the day is over (`slotExpiredToday`). The minute of the day in Beijing is the clock's.
use buchuqin_api.Prelude.{
  ℕ, ◌+◌, Bool, false, Option, none, some, ◌==◌, ◌||◌, ◌&&◌, leb, ltb, if◌then◌else◌,
}
use buchuqin_api.Store.{Tx, ◌>>=◌, pure, read, require, Failure, bad_request}
use buchuqin_api.Store.Rows.{Clock, Campus}
use buchuqin_api.Tenancy.{find_campus}

-- Whether a minute lies between two others of the day, the second of which may be on the next day.
unfoldable pub is_between : ℕ → ℕ → ℕ → Bool
is_between s e now = if ltb s e then leb s now && ltb now e else leb s now || ltb now e

unfoldable pub is_window_closed : Option ℕ → Option ℕ → ℕ → Bool
unfolding is_between
is_window_closed (some s) (some e) now = if s == e then false else is_between s e now
is_window_closed _ _ now = false

-- `isClosedNow`, without the reason.
unfoldable pub is_closed_now : Clock → Campus → Bool
unfolding is_window_closed
is_closed_now clock c = c.manual_closed || is_window_closed c.close_start c.close_end clock.minute

abbrev pub closed_failure : Campus → Failure
closed_failure c = if c.manual_closed then bad_request "商家已休息，暂停接单" else bad_request "已打烊"

-- `throwIfClosed`, and `throwIfCampusClosed`
unfoldable pub throw_if_closed : Clock → Option Campus → Tx (Unit {0})
unfolding is_closed_now
throw_if_closed clock none = pure tt
throw_if_closed clock (some c) =
    if is_closed_now clock c then require false (closed_failure c) else pure tt

unfoldable pub throw_if_campus_closed : Clock → ℕ → Tx (Unit {0})
unfolding throw_if_closed
throw_if_campus_closed clock campus_id = read (find_campus campus_id) >>= throw_if_closed clock

-- `slotExpiredToday`
unfoldable pub slot_expired_today : ℕ → Option (ℕ × ℕ) → Bool
slot_expired_today now none = false
slot_expired_today now (some h) =
    let soon = leb h.0 (now + 30) in
    if leb h.1 h.0 then leb h.0 now || ltb now h.1 || soon else soon
