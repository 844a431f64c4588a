-- ===== src/Payment.antt =====
-- Payment runs, apps/api/src/payment-run.
pub mod Beneficiary
pub mod Eligibility
pub mod Settlement
pub mod Run
pub mod Create
pub mod Claims
pub mod Machine
pub mod Batch
