-- ===== src/Admin/Refunds.antt =====
-- src/admin/admin.service.ts: the refunds of the back office.
pub mod Finish
pub mod Audit
pub mod Create
pub mod Restock
pub mod Laws
pub mod Ceiling
