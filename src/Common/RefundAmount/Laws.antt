-- ===== src/Common/RefundAmount/Laws.antt =====
-- Laws of the refund amounts and of the state that an order goes back to.
use buchuqin_api.Prelude.{ℕ, ◌+◌, ◌≡◌, ◌↔◌, true, false, [], ◌∷◌, arith, pos_part, neg_part}
use buchuqin_api.Common.Status.{
  Status, paid, picking, waiting_first_mile, delivered, completed, includes, delivering_statuses,
}
use buchuqin_api.Common.RefundAmount.{
  order_arrived, pre_delivery_refundable, refund_restore_target, refund_ceiling,
}

-- An order can be reset only to a state between payment and receipt: the target of a restore is one
-- of the running states or `completed`, it is the snapshot itself where the snapshot is such a state,
-- and it is `delivered` for every other snapshot.
pub refund_restore_target_lem :
    (s : Status)
    → (includes (completed ∷ delivering_statuses) (refund_restore_target s) ≡ true)
      × (includes (completed ∷ delivering_statuses) s ≡ true → refund_restore_target s ≡ s)
      × (includes (completed ∷ delivering_statuses) s ≡ false → refund_restore_target s ≡ delivered)
unfolding refund_restore_target
refund_restore_target_lem s = ground arith

-- The delivery fee is refundable by default exactly from the arrival at the shop on: of the states
-- that can still be refunded whole, these are all but `paid`, `picking` and `waiting_first_mile`.
pub order_arrived_iff :
    (s : Status)
    → includes pre_delivery_refundable s ≡ true
    → (order_arrived s ≡ false) ↔ (includes (paid ∷ picking ∷ waiting_first_mile ∷ []) s ≡ true)
unfolding order_arrived
order_arrived_iff s h = ground arith

-- The ceiling with the delivery fee exceeds the one without it by just that fee, also where the
-- latter is below zero.
pub refund_ceiling_fee :
    (payable fee : ℕ)
    → let open_ = refund_ceiling payable fee true in
      let shut = refund_ceiling payable fee false in
      pos_part shut + fee ≡ pos_part open_ + neg_part shut
unfolding refund_ceiling
refund_ceiling_fee payable fee = ground arith
