-- ===== src/Fulfillment/Task/Guards.antt =====
-- The guards in front of the writes of `updateTask`: what is known when they have let a step through.
use buchuqin_api.Prelude.{
  ℕ, ◌≡◌, refl, inl, inr, Bool, true, Option, none, some, ◌||◌, ◌&&◌, not, arith, Bool-cases,
  opt_eq,
}
use buchuqin_api.Common.Status.{Status, includes}
use buchuqin_api.Store.{Db, Tx, Failure, bad_request, forbidden, ◌>>=◌, ◌>>◌, require}
use buchuqin_api.Store.Holds.{Holds, Holds-require}
use buchuqin_api.Store.Rows.{Staff, Order}
use buchuqin_api.Fulfillment.Steps.{
  Action, handover, delivered, Payload, Move, is_manager, is_pickup, move_of, allowed,
  is_own_building, check_proof, is_empty, has_text,
}
use buchuqin_api.Fulfillment.Task.{
  transfer_task, finish_task, step_task, run_action, act_on_order, transferable, is_others,
  release_task,
}

-- What proves a step: photos of a handover; photos or a remark of a delivery, and photos where the
-- customer picks the order up downstairs.
abbrev pub is_proved : Action → Bool → Payload → Bool
is_proved handover pickup p = not (is_empty p.images)
is_proved delivered pickup p = not (is_empty p.images) || (not pickup && has_text p.reason)
is_proved _ pickup p = true

module _ (Q : Db → Type 0) (db : Db) where
  Holds-allowed :
      (next : Option Move) (s : Status) (k : Move → Tx (Unit {0}))
      → ((m : Move) → next ≡ some m → includes m.from_ s ≡ true → Holds Q (k m db))
      → Holds Q ((allowed next s >>= k) db)
  unfolding allowed
  Holds-allowed none s k h = tt
  Holds-allowed (some m) s k h = elim (Bool-cases (includes m.from_ s)) [
    | inl inside ↦ rw inside (h m refl inside)
    | inr outside ↦ rw outside tt
  ]

  Holds-check_proof :
      (a : Action) (pickup : Bool) (p : Payload) (k : Tx (Unit {0}))
      → (is_proved a pickup p ≡ true → Holds Q (k db))
      → Holds Q ((check_proof a pickup p >> k) db)
  unfolding check_proof
  Holds-check_proof handover pickup p k h =
      Holds-require Q (not (is_empty p.images)) (bad_request "请拍摄交接凭证照片") k db h
  Holds-check_proof delivered pickup p k h = ground arith
  Holds-check_proof a pickup p k h = h refl

module _ (now period : ℕ) (staff : Staff) (o : Order) (Q : Db → Type 0) (db : Db) where
  abbrev pickup_of : Bool
  pickup_of = is_pickup o.parcel.last_mile_mode

  -- A step that the guards let through is one of the table, is nobody else's, and is proved.
  pub Holds-step_task :
      (a : Action) (p : Payload)
      → ((m : Move)
          → move_of (is_manager staff.role) o.status (is_pickup o.parcel.last_mile_mode) a ≡ some m
          → includes m.from_ o.status ≡ true
          → not (is_others (is_manager staff.role) o.rider_id staff.id) ≡ true
          → is_proved a (is_pickup o.parcel.last_mile_mode) p ≡ true
          → Holds Q (finish_task now period staff o a p m db))
      → Holds Q (step_task now period staff o a p db)
  unfolding step_task
  Holds-step_task a p h =
      let free = not (is_others (is_manager staff.role) o.rider_id staff.id) in
      let e : Failure = bad_request "任务已被其他配送员接取" in
      let last = λ (m : Move). finish_task now period staff o a p m in
      let checked = λ (m : Move). check_proof a pickup_of p >> last m in
      Holds-allowed Q db (move_of (is_manager staff.role) o.status pickup_of a) o.status
        (λ m. require free e >> checked m)
        λ m next inside. Holds-require Q free e (checked m) db λ mine.
          Holds-check_proof Q db a pickup_of p (last m) λ proved. h m next inside mine proved

  -- An order is handed back by the rider who has it, in one of three states.
  pub Holds-transfer_task :
      (not (is_manager staff.role) ≡ true
        → opt_eq o.rider_id (some staff.id) ≡ true
        → includes transferable o.status ≡ true
        → Holds Q (release_task now staff o db))
      → Holds Q (transfer_task now staff o db)
  unfolding transfer_task
  Holds-transfer_task h =
      let e₁ : Failure = bad_request "楼长任务无需转单" in
      let e₂ : Failure = bad_request "仅可转单自己接取的任务" in
      let e₃ : Failure = bad_request "当前订单状态不能转单" in
      let open_ = includes transferable o.status in
      let last = release_task now staff o in
      let own = opt_eq o.rider_id (some staff.id) in
      Holds-require Q (not (is_manager staff.role)) e₁
        (require own e₂ >> (require open_ e₃ >> last)) db
        λ rider.
          Holds-require Q own e₂ (require open_ e₃ >> last) db
            λ mine. Holds-require Q open_ e₃ last db λ h'. h rider mine h'

  pub Holds-act_on_order :
      (a : Action) (p : Payload)
      → Holds Q (run_action now period staff o a p db)
      → Holds Q (act_on_order now period staff o a p db)
  unfolding act_on_order
  Holds-act_on_order a p h =
      Holds-require Q (not (is_manager staff.role && not (is_own_building staff o.address)))
        (forbidden "非本楼订单，无权操作") (run_action now period staff o a p) db (λ _. h)
