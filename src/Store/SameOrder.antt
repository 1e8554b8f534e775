-- ===== src/Store/SameOrder.antt =====
-- What the steps of an order leave alone.
use buchuqin_api.Prelude.{◌∙◌, ◌≡◌, refl}
use buchuqin_api.Store.Rows.{Order}

-- What an action leaves alone: whose order it is, what was ordered and what was paid.
pub record SameOrder (x y : Order) : Type 0 where
  pub id : y.id ≡ x.id
  pub user_id : y.user_id ≡ x.user_id
  pub campus_id : y.campus_id ≡ x.campus_id
  pub items : y.items ≡ x.items
  pub product_amount : y.product_amount ≡ x.product_amount
  pub total_quantity : y.total_quantity ≡ x.total_quantity
  pub delivery_threshold : y.delivery_threshold ≡ x.delivery_threshold
  pub discount : y.discount ≡ x.discount
  pub payable_amount : y.payable_amount ≡ x.payable_amount
  pub delivery_fee : y.delivery_fee ≡ x.delivery_fee
  pub coupon_id : y.coupon_id ≡ x.coupon_id
  pub paid_at : y.paid_at ≡ x.paid_at

pub SameOrder-refl : (x : Order) → SameOrder x x
SameOrder-refl x = record {
  id = refl;
  user_id = refl;
  campus_id = refl;
  items = refl;
  product_amount = refl;
  total_quantity = refl;
  delivery_threshold = refl;
  discount = refl;
  payable_amount = refl;
  delivery_fee = refl;
  coupon_id = refl;
  paid_at = refl;
}

pub SameOrder-trans : (x y z : Order) → SameOrder x y → SameOrder y z → SameOrder x z
SameOrder-trans x y z h k = record {
  id = k.id ∙ h.id;
  user_id = k.user_id ∙ h.user_id;
  campus_id = k.campus_id ∙ h.campus_id;
  items = k.items ∙ h.items;
  product_amount = k.product_amount ∙ h.product_amount;
  total_quantity = k.total_quantity ∙ h.total_quantity;
  delivery_threshold = k.delivery_threshold ∙ h.delivery_threshold;
  discount = k.discount ∙ h.discount;
  payable_amount = k.payable_amount ∙ h.payable_amount;
  delivery_fee = k.delivery_fee ∙ h.delivery_fee;
  coupon_id = k.coupon_id ∙ h.coupon_id;
  paid_at = k.paid_at ∙ h.paid_at;
}
