-- ===== src/Business/Timers/Departures.antt =====
-- Which orders the timer of src/business/auto-outbound.service.ts takes out of the stock room.
use buchuqin_api.Prelude.{
  ℕ, ◌+◌, ◌*◌, ◌≡◌, refl, Bool, true, false, List, [], ◌∷◌, Option, none, some, ◌==◌, ◌||◌, ◌&&◌,
  not, leb, arith, All, All-map,
}
use buchuqin_api.Common.Status.{Status, is_status, is_status_refl}
use buchuqin_api.Store.{Db, transaction, has_order_id}
use buchuqin_api.Store.Table.{
  Pairs, none_left, pair, Pairs-refl, Pairs-trans, Pairs-count_where, count_where,
}
use buchuqin_api.Store.Rows.{Order, Campus}
use buchuqin_api.Business.Advance.{outbound}
use buchuqin_api.Business.Timers.{outbound_each}
use buchuqin_api.Store.SameOrder.{SameOrder, SameOrder-refl, SameOrder-trans}
use buchuqin_api.Admin.Orders.Actions.{Leaves, outbound-Leaves}

-- A payment that is so many seconds old.
abbrev pub is_old : ℕ → ℕ → Option ℕ → Bool
is_old now delay none = false
is_old now delay (some t) = leb (t + 1000 * delay) now

-- The order's campus is active, with automatic departure, and the payment is as old as its delay.
abbrev pub is_due : ℕ → List Campus → ℕ → Option ℕ → Bool
is_due now [] campus_id t = false
is_due now (c ∷ cs) campus_id t =
    (c.active
      && c.auto_outbound_enabled
      && (campus_id == c.id)
      && is_old now c.auto_outbound_delay t)
    || is_due now cs campus_id t

module _ (now : ℕ) (cs : List Campus) where
  -- An order before and after: the same, or out of the stock room, if it was paid and due.
  abbrev pub is_departure : Order → Order → Bool
  is_departure x y =
      is_status x.status y.status
      || (is_status x.status Status.paid
          && is_status y.status Status.waiting_first_mile
          && is_due now cs x.campus_id x.paid_at)

  abbrev pub Departs : Order → Order → Type 0
  Departs x y = SameOrder x y × (is_departure x y ≡ true)

  pub Departs-refl : (x : Order) → Departs x x
  Departs-refl x = (SameOrder-refl x, rw (is_status_refl x.status) refl)

  edge_trans :
      (r s t : Status) (a b : Bool)
      → a ≡ b
      → is_status r s || (is_status r Status.paid && is_status s Status.waiting_first_mile && a)
        ≡ true
      → is_status s t || (is_status s Status.paid && is_status t Status.waiting_first_mile && b)
        ≡ true
      → is_status r t || (is_status r Status.paid && is_status t Status.waiting_first_mile && a)
        ≡ true
  edge_trans r s t a b e h k = ground arith

  same_due :
      (x y : Order)
      → SameOrder x y
      → is_due now cs x.campus_id x.paid_at ≡ is_due now cs y.campus_id y.paid_at
  same_due x y h = rw (h.campus_id, h.paid_at) refl

  pub Departs-trans : (x y z : Order) → Departs x y → Departs y z → Departs x z
  Departs-trans x y z (h, e) (k, f) = (
    SameOrder-trans x y z h k,
    edge_trans x.status y.status z.status (is_due now cs x.campus_id x.paid_at)
        (is_due now cs y.campus_id y.paid_at) (same_due x y h) e f,
  )

  -- An order with the identifier that the timer may not take, whatever became of it in the meantime.
  abbrev pub is_unfit : ℕ → Order → Bool
  is_unfit id x =
      has_order_id id x
      && not (
          (is_status x.status Status.paid || is_status x.status Status.waiting_first_mile)
          && is_due now cs x.campus_id x.paid_at)

  abbrev IsReady : Db → ℕ → Type 0
  IsReady d id = count_where (is_unfit id) d.orders ≡ 0

  leave-edge :
      (s t : Status) (own due : Bool)
      → is_status s t || own ≡ true
      → is_status s t
          || ((is_status s Status.paid || is_status s Status.picking)
              && is_status t Status.waiting_first_mile)
        ≡ true
      → own && not ((is_status s Status.paid || is_status s Status.waiting_first_mile) && due)
        ≡ false
      → is_status s t || (is_status s Status.paid && is_status t Status.waiting_first_mile && due)
        ≡ true
  leave-edge s t own due h e f = ground arith

  Leaves-Departs : (id : ℕ) (x y : Order) → Leaves id x y → is_unfit id x ≡ false → Departs x y
  Leaves-Departs id x y ((same, e), h) fit = (
    same,
    leave-edge x.status y.status (has_order_id id x) (is_due now cs x.campus_id x.paid_at) h
        (ground arith) fit,
  )

  Pairs-Departs :
      (id : ℕ) (xs ys : List Order)
      → Pairs (Leaves id) xs ys
      → count_where (is_unfit id) xs ≡ 0
      → Pairs Departs xs ys
  Pairs-Departs id xs ys none_left h = none_left
  Pairs-Departs id xs ys (pair {x} {y} {xs = xs'} e t) h =
      let here : is_unfit id x ≡ false = ground arith in
      let rest : count_where (is_unfit id) xs' ≡ 0 = ground arith in
      pair (Leaves-Departs id x y e here) (Pairs-Departs id _ _ t rest)

  outbound-Departs :
      (id : ℕ) (db : Db)
      → IsReady db id
      → Pairs Departs db.orders (transaction (outbound now id) db).orders
  outbound-Departs id db ready =
      Pairs-Departs id db.orders (transaction (outbound now id) db).orders
        (outbound-Leaves now id db) ready

  unfit_before : (id : ℕ) (x y : Order) → Departs x y → is_unfit id y ≡ true → is_unfit id x ≡ true
  unfit_before id x y (same, e) h =
      unfit_edge x.status y.status (has_order_id id x) (has_order_id id y)
        (is_due now cs x.campus_id x.paid_at) (is_due now cs y.campus_id y.paid_at)
        (rw same.id refl) (same_due x y same) e h
    where
      unfit_edge :
          (s t : Status) (own own' a b : Bool)
          → own' ≡ own
          → a ≡ b
          → is_status s t || (is_status s Status.paid && is_status t Status.waiting_first_mile && a)
            ≡ true
          → own' && not ((is_status t Status.paid || is_status t Status.waiting_first_mile) && b)
            ≡ true
          → own && not ((is_status s Status.paid || is_status s Status.waiting_first_mile) && a)
            ≡ true
      unfit_edge s t own own' a b o d e h = ground arith

  IsReady-after :
      (db d : Db) (id : ℕ) → Pairs Departs db.orders d.orders → IsReady db id → IsReady d id
  IsReady-after db d id steps ready =
      let fewer =
        Pairs-count_where Departs (is_unfit id) (unfit_before id) db.orders d.orders steps in
      omega (arith, fewer, ready)

  abbrev pub IsReadyOrder : Db → Order → Type 0
  IsReadyOrder d o = IsReady d o.id

  pub outbound_each-Departs :
      (os : List Order) (db : Db)
      → All (IsReadyOrder db) os
      → Pairs Departs db.orders (outbound_each now os db).orders
  unfolding outbound_each
  outbound_each-Departs [] db ready = Pairs-refl Departs Departs-refl db.orders
  outbound_each-Departs (o ∷ os) db (first, others) =
      let d = transaction (outbound now o.id) db in
      let step = outbound-Departs o.id db first in
      Pairs-trans Departs Departs-trans db.orders d.orders (outbound_each now os d).orders step (
        outbound_each-Departs os d
          (All-map os (λ x ready. IsReady-after db d x.id step ready) others))
