-- ===== src/Tests/Tasks.antt =====
-- The tasks of the riders and the managers on the small shop.
use buchuqin_api.Prelude.{◌≡◌, ◌≢◌, refl, true, false, [], ◌∷◌, none, some, arith}
use buchuqin_api.Common.Status.{Status}
use buchuqin_api.Store.{Db, Outcome, ok, thrown, transaction}
use buchuqin_api.Store.Holds.{Holds, IsThrown, IsOk}
use buchuqin_api.Store.Table.{Pairs}
use buchuqin_api.Store.Rows.{Order}
use buchuqin_api.Fulfillment.Steps.{
  accept, delivered, transfer, depart, manager_move, rider_move, is_own_building, Move,
}
use buchuqin_api.Fulfillment.Task.{act_on_order}
use buchuqin_api.Fulfillment.Task.Guards.{is_proved}
use buchuqin_api.Fulfillment.Task.Moves.{Follows, act_on_order-Follows}
use buchuqin_api.Fulfillment.Task.Grab.{accept_exclusive, others_order-IsThrown, transfer-accept}
use buchuqin_api.Commission.Record.Laws.{IsSettled}
use buchuqin_api.Fulfillment.Task.Deliver.{as_delivered, delivered-IsSettled, delivered-IsOk}
use buchuqin_api.Tests.Sample.{shop, shop_with, order_in, rider, other_rider, manager, photo}

abbrev waiting : Order
waiting = order_in Status.waiting_first_mile none

abbrev near : Order
near = order_in Status.last_mile (some 11)

abbrev db_of {ℓ} : {A : Type ℓ} → Outcome A → Db
db_of (ok a db) = db
db_of (thrown e) = shop

abbrev taken_shop : Db
taken_shop = db_of (act_on_order 1000 5 rider waiting accept photo (shop_with waiting))

accept_runs : act_on_order 1000 5 rider waiting accept photo (shop_with waiting) ≡ ok tt taken_shop
unfolding act_on_order rider_move
accept_runs = refl

act_on_order-Follows_example :
    Pairs
      (Follows false false)
      (waiting ∷ [])
      (transaction (act_on_order 1000 5 rider waiting depart photo) (shop_with waiting)).orders
act_on_order-Follows_example =
    act_on_order-Follows 1000 5 rider waiting depart photo (shop_with waiting)

accept_exclusive_example :
    IsThrown (act_on_order 1000 5 other_rider waiting accept photo taken_shop)
accept_exclusive_example =
    accept_exclusive 1000 5 rider other_rider waiting waiting photo photo (shop_with waiting)
      taken_shop refl accept_runs

rider_differs : rider.id ≢ other_rider.id
rider_differs = λ e. absurd (omega arith)

others_order-IsThrown_example : IsThrown (
    act_on_order 1000 5 other_rider
      (order_in Status.waiting_first_mile (some 11))
      accept
      photo
      (shop_with (order_in Status.waiting_first_mile (some 11))))
others_order-IsThrown_example =
    others_order-IsThrown 1000 5 other_rider (order_in Status.waiting_first_mile (some 11)) accept
      photo (shop_with (order_in Status.waiting_first_mile (some 11))) 11 refl refl rider_differs

abbrev under_way : Order
under_way = order_in Status.first_mile (some 11)

transfer-accept_example :
    (db' : Db) × (act_on_order 1000 5 rider under_way transfer photo (shop_with under_way)
      ≡ ok tt db')
    × IsOk (act_on_order 1000 5 other_rider waiting accept photo db')
transfer-accept_example =
    transfer-accept 1000 5 rider other_rider under_way waiting photo photo (shop_with under_way)
      refl refl refl refl (omega arith) refl refl refl

delivered-IsSettled_example :
    Holds
      (λ after.
        (is_proved delivered false photo ≡ true)
        × IsSettled (as_delivered near) (shop_with near) after.commissions)
      (act_on_order 1000 5 manager near delivered photo (shop_with near))
delivered-IsSettled_example = delivered-IsSettled 1000 5 manager near photo (shop_with near)

abbrev last_move : Move
last_move = record { status = Status.delivered; text = "已送达寝室"; from_ = Status.last_mile ∷ [] }

manager_delivers : manager_move delivered ≡ some last_move
unfolding manager_move
manager_delivers = refl

delivered-IsOk_example : IsOk (act_on_order 1000 5 manager near delivered photo (shop_with near))
unfolding is_own_building
delivered-IsOk_example =
    delivered-IsOk 1000 5 manager near photo last_move (shop_with near) refl manager_delivers refl
      refl refl (omega arith)
