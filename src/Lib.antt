-- ===== src/Lib.antt =====
-- The API of the campus shop (`src/`, a NestJS service over a relational database), modelled as functions on
-- the database's tables.
--
-- The parts and their files:
-- - Prelude: Boolean tests and list functions on the native numbers, and a small ℤ.
-- - Store, Store/Rows, Store/Table, Store/Sums: the database. A table is the list of its rows, oldest
--   first (`prisma/schema.prisma`, with the columns that the modelled code reads and writes). `Db` holds the
--   tables, `Tx` is a body of `$transaction`: it returns with a new database or throws, and `transaction`
--   keeps the old database of a body that threw. `update_many` is `updateMany`, with the count of the
--   rows that it matched, on which the services' conditional updates rest.
-- - Store/SameOrder: what the steps of an order leave alone.
-- - Store/Holds, Store/Yields: postconditions of bodies, on the database and on the result too. Store/Request:
--   requests that commit several transactions, of which the earlier ones stay when a later one throws.
-- - Common: `src/common/order-state.ts` (Status, Timeline), `src/admin/refund-amount.ts` (RefundAmount) and
--   `src/common/product-units.ts` (ProductUnits). Double holds the numbers of JavaScript with 53 binary digits,
--   as far as the share of a refund needs them.
-- - Tenancy: `src/common/organization.ts` and `src/common/capability.ts`.
-- - Commission: `src/commission/commission.service.ts`: `bestMatch` and `priceFor` (Rules),
--   `recordForDelivered` (Record), `refundAdjust` and `monthly` (Adjust; the upsert of one person, the share and
--   the list of the people have their lemmas in Adjust/Upsert, Adjust/Share and Adjust/People).
-- - Fulfillment: `src/fulfillment/fulfillment.service.ts`: the actions with their tables (Steps), and
--   `updateTask` and `scanArrive` (Task). The guards in front of a write, the edges of the state machine, the
--   taking of an order and the delivery have their lemmas in Task/Guards, Task/Moves, Task/Grab and
--   Task/Deliver.
-- - Business: `src/business/business.service.ts`: opening hours (Opening), promotions (Prices), the cart (Cart),
--   from the quote to the order (Checkout), the purchase limits (Limits), the cost snapshot (Cost), the closing
--   of unpaid orders (Closing), `pay` (Pay), `confirmReceipt` and `cancel` (Orders), `advance` and `outbound`
--   (Advance), refunds (Refunds), coupons and the wheel (Coupons), and the timers of
--   `src/business/auto-complete.service.ts` and `src/business/auto-outbound.service.ts` (Timers; which orders the
--   second selects and takes is in Timers/Selection and Timers/Departures).
-- - Admin: `src/admin/admin.service.ts`: refunds (Refunds: `finishRefund` in Finish, `auditRefund` in Audit, what
--   the back office opens and what the payment service says later in Create), orders (Orders: `orderAction`,
--   `updateOrderStatus`), and the stock by hand (Inventory: `stockIn`, `adjustStock`, `stocktake`).
-- - Tests: a small shop, runs on it, and the theorems at it.
--
-- How the parts meet: Business and Fulfillment change the orders by conditional updates on the identifier and
-- the state that was read, and so do not lose each other's writes; a delivery calls Commission inside its
-- transaction; Tenancy says which orders have riders and where coupons are given out.
--
-- Choices of the model:
-- - Identifiers, names that are only compared and times are numbers; amounts are whole cents. A state outside
--   the program's is `other`. Values that a message quotes are left out of it.
-- - The clock is an argument, with the starts of the week and of the month that the services compute from it.
-- - Two requests at once are two transactions in sequence of which the second may have read its order before
--   the first: the definitions behind a read take the order as it was read (`raw`, `o`), and it may be older
--   than the database.
-- - The ratio of `refundAdjust` is the two amounts of which its caller takes the quotient; the quotient and its
--   product are rounded to 53 binary digits as JavaScript rounds them (Common/Double). Amounts are below 2 ^ 53.
-- - The roll of the wheel is the whole part
--   of the random number times the total, on which the choice with whole weights depends alone.
-- - What the payment service answers is an argument of the request that asks it (`Reply`, `WxStatus`), any
--   answer at all; nothing is assumed of it. The order in which the database gives refunds by their last change
--   is an argument too.
-- - The column `sales` of a product is `sales` less `returned`; a refund's items are known by their products.
-- - All loops are structural recursion on lists. Only the count of the binary digits of a number (Common/Double)
--   has fuel, 128, which is more than a product of two numbers below 2 ^ 53 has.
--
-- Not modelled: pushes, receipts, the audit log and the texts kept for readers; views, reports and exports; the
-- rest of `src/admin/admin.service.ts` (restock and purchase orders, the making of coupons, settlements,
-- recruiting, catalogue) and the roles in `src/admin/rbac`; profiles
-- and shifts of the staff; the payment service behind `src/payments/`, which is outside the repository; login,
-- files, printing and the seeds.
pub mod Prelude
pub mod Common
pub mod Store
pub mod Tenancy
pub mod Commission
pub mod Fulfillment
pub mod Business
pub mod Admin
pub mod Tests
