-- ===== src/Fulfillment.antt =====
-- src/fulfillment/fulfillment.service.ts: the tasks of riders and building managers.
pub mod Steps
pub mod Task
