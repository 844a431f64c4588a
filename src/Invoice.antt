-- ===== src/Invoice.antt =====
-- Invoices, apps/api/src/invoice/invoice.service.ts.
pub mod Match
pub mod Coverage
pub mod Register
pub mod Rematch
pub mod Samples
mod Tests
