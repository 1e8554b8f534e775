-- ===== src/Business.antt =====
-- src/business/: the customer's side, with the purchase limits, the payment, refunds and coupons.
pub mod Limits
pub mod Cost
pub mod Closing
pub mod Pay
pub mod Refunds
pub mod Coupons
pub mod Orders
pub mod Advance
pub mod Opening
pub mod Prices
pub mod Cart
pub mod Checkout
pub mod Timers
