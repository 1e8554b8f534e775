-- ===== src/Admin.antt =====
-- src/admin/: the back office.
pub mod Refunds
pub mod Orders
pub mod Inventory
