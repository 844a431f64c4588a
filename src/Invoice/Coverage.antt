-- ===== src/Invoice/Coverage.antt =====
-- The value that the invoices of an order hold against what is received of the order:
-- `allocatedValueForPo` and `receivedValueForPo` of apps/api/src/invoice/invoice.service.ts, along the
-- writes to invoices and receipts.
pub mod Held
pub mod Ledger
pub mod Write
pub mod Outcome
pub mod Known
pub mod Rematch
pub mod Correct
pub mod Reevaluate
pub mod Register
