-- ===== src/Common.antt =====
-- src/common/ and src/admin/refund-amount.ts: what the services share.
pub mod Status
pub mod Timeline
pub mod RefundAmount
pub mod ProductUnits
pub mod Double
