-- ===== src/Tests.antt =====
-- Runs of the services' definitions on a small shop, and the theorems applied to it.
mod Sample
mod Basics
mod Tasks
mod Customer
mod BackOffice
mod Shopping
