-- ===== src/Approval.antt =====
-- Decisions on approvals, `decide` and `releaseCommittedBudget` of
-- apps/api/src/approval/approval.service.ts.
pub mod Budget
pub mod Effects
pub mod Decide
