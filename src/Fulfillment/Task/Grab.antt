-- ===== src/Fulfillment/Task/Grab.antt =====
-- Who may act on an order: one rider takes it, and no other rider reaches it until it is handed back.
use buchuqin_api.Prelude.{
  ℕ, zero, suc, ◌≡◌, ◌≢◌, ◌≤◌, refl, true, false, none, some, ◌&&◌, not, arith, opt_eq, ◌∙◌,
  ==_refl,
}
use buchuqin_api.Common.Status.{Status, includes}
use buchuqin_api.Store.{Db, ok, thrown, Failure, won, bad_request, forbidden, write, ◌>>◌, require}
use buchuqin_api.Store.Holds.{Holds, IsThrown, IsOk, Holds-won_last, require_pass, won_pass}
use buchuqin_api.Store.Table.{
  count_where, update_many, count_where-update_out, count_where-update_in,
}
use buchuqin_api.Store.Rows.{Staff, Order}
use buchuqin_api.Fulfillment.Task.Guards.{Holds-step_task, Holds-transfer_task, Holds-act_on_order}
use buchuqin_api.Fulfillment.Steps.{
  Action, accept, transfer, Payload, is_manager, rider_move, allowed, is_own_building, check_proof,
}
use buchuqin_api.Fulfillment.Task.{
  transfer_task, grab_task, finish_task, step_task, run_action, act_on_order, is_mine, is_free,
  transferable, release_task, claim_order, release_order, log_transfer,
}

-- No order of this number waits for a rider.
abbrev pub IsTaken : ℕ → Db → Type 0
IsTaken id db = count_where (is_free id) db.orders ≡ 0

won_none : (n : ℕ) (e : Failure) (db : Db) → n ≡ 0 → won n e db ≡ thrown e
won_none zero e db h = refl
won_none (suc n) e db h = absurd (omega arith)

won_some : (n : ℕ) (e : Failure) (db : Db) → 1 ≤ n → won n e db ≡ ok tt db
won_some zero e db h = absurd (omega arith)
won_some (suc n) e db h = refl

module _ (now period : ℕ) (staff : Staff) (o : Order) (p : Payload) (db : Db) where
  claimed-IsTaken :
      count_where (is_free o.id) (update_many (is_free o.id) (claim_order staff) db.orders) ≡ 0
  claimed-IsTaken =
      count_where-update_out (is_free o.id) (claim_order staff) db.orders (λ x h. ground arith)

  grab_task-IsTaken : Holds (IsTaken o.id) (grab_task staff o db)
  unfolding grab_task
  grab_task-IsTaken =
      Holds-won_last (IsTaken o.id) (count_where (is_free o.id) db.orders) _ _ claimed-IsTaken

  grab_task-IsThrown : IsTaken o.id db → IsThrown (grab_task staff o db)
  unfolding grab_task
  grab_task-IsThrown h =
      rw
        (won_none (count_where (is_free o.id) db.orders) (bad_request "任务已被其他配送员接取")
          (record db { orders = update_many (is_free o.id) (claim_order staff) db.orders }) h)
        tt

-- Once a rider has taken an order, every other attempt to take it fails, also of one who had read the
-- order while it was still free.
pub accept_exclusive :
    (now period : ℕ) (first second : Staff) (o₁ o₂ : Order) (p₁ p₂ : Payload) (db db' : Db)
    → o₁.id ≡ o₂.id
    → act_on_order now period first o₁ accept p₁ db ≡ ok tt db'
    → IsThrown (act_on_order now period second o₂ accept p₂ db')
unfolding run_action finish_task
accept_exclusive now period first second o₁ o₂ p₁ p₂ db db' same done =
    let taken : Holds (IsTaken o₁.id) (act_on_order now period first o₁ accept p₁ db) =
      Holds-act_on_order now period first o₁ (IsTaken o₁.id) db accept p₁ (
        Holds-step_task now period first o₁ (IsTaken o₁.id) db accept p₁
          (λ _ _ _ _ _. grab_task-IsTaken now period first o₁ p₁ db)) in
    let gone : IsTaken o₁.id db' = rw done at taken in
    Holds-act_on_order now period second o₂ (λ _. ⊥) db' accept p₂
      (Holds-step_task now period second o₂ (λ _. ⊥) db' accept p₂
        (λ _ _ _ _ _. grab_task-IsThrown now period second o₂ p₂ db' (rw (← same) gone)))

-- No rider gets past the guards on an order that another rider has, whatever the action.
pub others_order-IsThrown :
    (now period : ℕ) (staff : Staff) (o : Order) (a : Action) (p : Payload) (db : Db) (r : ℕ)
    → is_manager staff.role ≡ false
    → o.rider_id ≡ some r
    → r ≢ staff.id
    → IsThrown (act_on_order now period staff o a p db)
unfolding run_action
others_order-IsThrown now period staff o transfer p db r rider has ne =
    Holds-act_on_order now period staff o (λ _. ⊥) db transfer p
      (Holds-transfer_task now period staff o (λ _. ⊥) db (λ _ mine _. absurd (ground arith)))
others_order-IsThrown now period staff o a p db r rider has ne =
    Holds-act_on_order now period staff o (λ _. ⊥) db a p
      (Holds-step_task now period staff o (λ _. ⊥) db a p (λ _ _ _ free _. absurd (ground arith)))

grab_task-IsOk :
    (staff : Staff) (o : Order) (db : Db)
    → 1 ≤ count_where (is_free o.id) db.orders
    → IsOk (grab_task staff o db)
unfolding grab_task
grab_task-IsOk staff o db h =
    rw
      (won_some (count_where (is_free o.id) db.orders) (bad_request "任务已被其他配送员接取")
        (record db { orders = update_many (is_free o.id) (claim_order staff) db.orders }) h)
      tt

-- A rider who reads an order that waits with no rider gets it.
pub accept-IsOk :
    (now period : ℕ) (staff : Staff) (o : Order) (p : Payload) (db : Db)
    → is_manager staff.role ≡ false
    → o.status ≡ Status.waiting_first_mile
    → o.rider_id ≡ none
    → 1 ≤ count_where (is_free o.id) db.orders
    → IsOk (act_on_order now period staff o accept p db)
unfolding act_on_order run_action step_task finish_task allowed rider_move check_proof
accept-IsOk now period staff o p db rider waiting free h =
    rw (rider, waiting, free) (grab_task-IsOk staff o db h)

abbrev released_db : ℕ → Staff → Order → Db → Db
released_db now staff o db =
    log_transfer o staff
      (record db { orders = update_many (is_mine o staff.id) (release_order now o) db.orders })

release_done :
    (now : ℕ) (staff : Staff) (o : Order) (db : Db)
    → 1 ≤ count_where (is_mine o staff.id) db.orders
    → release_task now staff o db ≡ ok tt (released_db now staff o db)
unfolding release_task
release_done now staff o db h =
    won_pass (count_where (is_mine o staff.id) db.orders) (bad_request "订单状态已变化，请刷新")
      (write (log_transfer o staff))
      (record db { orders = update_many (is_mine o staff.id) (release_order now o) db.orders }) h

transfer_done :
    (now period : ℕ) (staff : Staff) (o : Order) (p : Payload) (db : Db)
    → is_manager staff.role ≡ false
    → o.rider_id ≡ some staff.id
    → includes transferable o.status ≡ true
    → 1 ≤ count_where (is_mine o staff.id) db.orders
    → act_on_order now period staff o transfer p db ≡ ok tt (released_db now staff o db)
unfolding act_on_order run_action transfer_task
transfer_done now period staff o p db rider mine open_ h =
    let e₀ : Failure = forbidden "非本楼订单，无权操作" in
    let e₁ : Failure = bad_request "楼长任务无需转单" in
    let e₂ : Failure = bad_request "仅可转单自己接取的任务" in
    let e₃ : Failure = bad_request "当前订单状态不能转单" in
    let last = release_task now staff o in
    let own = opt_eq o.rider_id (some staff.id) in
    let k₂ = require (includes transferable o.status) e₃ >> last in
    let k₁ = require own e₂ >> k₂ in
    require_pass (not (is_manager staff.role && not (is_own_building staff o.address))) e₀
      (require (not (is_manager staff.role)) e₁ >> k₁) db (rw rider)
    ∙ require_pass (not (is_manager staff.role)) e₁ k₁ db (rw rider)
    ∙ require_pass own e₂ k₂ db (rw mine (==_refl staff.id))
    ∙ require_pass (includes transferable o.status) e₃ last db open_
    ∙ release_done now staff o db h

-- A rider who has an order that waits, is under way or stands downstairs can hand it back, and then
-- any other rider who reads it as waiting can take it.
pub transfer-accept :
    (now period : ℕ) (first second : Staff) (o o' : Order) (p p' : Payload) (db : Db)
    → is_manager first.role ≡ false
    → is_manager second.role ≡ false
    → o.rider_id ≡ some first.id
    → includes transferable o.status ≡ true
    → 1 ≤ count_where (is_mine o first.id) db.orders
    → o'.id ≡ o.id
    → o'.status ≡ Status.waiting_first_mile
    → o'.rider_id ≡ none
    → (db' : Db) × (act_on_order now period first o transfer p db ≡ ok tt db')
      × IsOk (act_on_order now period second o' accept p' db')
transfer-accept now period first second o o' p p' db rider₁ rider₂ mine open_ h same waiting free =
    let freed : 1
        ≤ count_where (is_free o'.id)
            (update_many (is_mine o first.id) (release_order now o) db.orders) =
      count_where-update_in (is_mine o first.id) (is_free o'.id) (release_order now o) db.orders
        (λ x e. ground arith) h in
    (
      released_db now first o db,
      transfer_done now period first o p db rider₁ mine open_ h,
      accept-IsOk now period second o' p' (released_db now first o db) rider₂ waiting free freed,
    )
