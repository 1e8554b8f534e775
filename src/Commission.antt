-- ===== src/Commission.antt =====
-- src/commission/commission.service.ts: what riders and building managers earn.
pub mod Rules
pub mod Match
pub mod Record
pub mod Adjust
