-- ===== src/Common/RefundAmount.antt =====
-- src/admin/refund-amount.ts: the amount of a refund, and the states around it.
-- The amounts are whole cents (`Int` columns), on which `Math.round` is the identity.
pub mod Laws
use buchuqin_api.Prelude.{
  ℕ, ◌+◌, ◌≤◌, ◌≡◌, refl, ◌↔◌, ◌⊎◌, Bool, true, false, List, [], ◌∷◌, ◌++◌, Option, none, some,
  arith, ℤ, pos, sub_ℕ, ◌||◌, if◌then◌else◌, pos_part, neg_part,
}
use buchuqin_api.Common.Status.{
  Status, paid, picking, waiting_first_mile, arrived, first_mile, waiting_handover, last_mile,
  delivered, completed, after_sales, cancelled, refunded, exception, pending_payment, other,
  is_status, includes,
}

-- `source`; `unknown` is any other text, on which the source throws.
pub data RefundSource : Type 0 where
  pre_delivery after_sale unknown : RefundSource

abbrev pub total : List ℕ → ℕ
total [] = 0
total (a ∷ as') = a + total as'

item_total : ℕ → List ℕ → ℕ
item_total locked [] = locked
item_total locked (a ∷ rest) = total (a ∷ rest)

-- `approvedRefundAmount`; `none` is the exception.
unfoldable pub approved_refund_amount : RefundSource → ℕ → List ℕ → Option ℕ
unfolding item_total
approved_refund_amount pre_delivery locked items = some locked
approved_refund_amount after_sale locked items = some (item_total locked items)
approved_refund_amount unknown locked items = none

-- `ARRIVED_STATUSES`
abbrev pub arrived_statuses : List Status
arrived_statuses = arrived ∷ first_mile ∷ waiting_handover ∷ last_mile ∷ delivered ∷ completed ∷ []

-- `orderArrived`
unfoldable pub order_arrived : Status → Bool
order_arrived s = includes arrived_statuses s || is_status s after_sales

-- `PRE_DELIVERY_REFUNDABLE_STATUSES`
abbrev pub pre_delivery_refundable : List Status
pre_delivery_refundable =
    paid ∷ picking ∷ waiting_first_mile ∷ arrived ∷ first_mile ∷ waiting_handover ∷ last_mile ∷ []

-- `refundRestoreTarget`
unfoldable pub refund_restore_target : Status → Status
refund_restore_target before =
    if includes (pre_delivery_refundable ++ (delivered ∷ completed ∷ [])) before
    then before
    else delivered

-- `refundCeiling`: below zero where the delivery fee is more than what was paid.
unfoldable pub refund_ceiling : ℕ → ℕ → Bool → ℤ
refund_ceiling payable fee include_fee = if include_fee then pos payable else sub_ℕ payable fee
