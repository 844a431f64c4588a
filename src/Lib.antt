-- ===== src/Lib.antt =====
-- The procurement and payment core of the repository: apps/api/src (the services) and
-- packages/tax (the tax engine).
--
-- How the parts interact. A requisition is created and submitted (Requisition); the submission asks
-- the policy engine (Policy/Engine) with the stored policy in force (Policy/Resolver, Policy/Config)
-- and what its budget has left, and is approved, held for approval or blocked. An approved
-- requisition is ordered (PurchaseOrder/Issue), from its own lines or from an awarded quote
-- (PurchaseOrder/Award), which commits the order's total to the budget; the order is confirmed and
-- its cancellation asked for (PurchaseOrder/Status). A pending approval, of a spend, a vendor or a
-- cancellation, is decided (Approval/Decide), which moves its requisition, vendor or order
-- (Approval/Effects) and gives the budget of a cancelled order back (Approval/Budget). Goods are
-- received against an order (Receipt); an invoice is registered and matched with its order and the
-- order's receipts (Invoice/Register, Invoice/Match), and matched again when goods arrive, a receipt
-- is cancelled or an order is (Invoice/Rematch). A vendor's bank
-- account is given by one user and verified by another (Vendor). A matched invoice of a live order is planned in
-- a payment run (Payment/Create), which a second user approves and which is executed, voided or
-- reconciled line by line (Payment/Run); a paid line settles its invoice and moves its amount from
-- committed to spent (Payment/Settlement). The batch (Payment/Batch) and the journal (Journal) are
-- built from a run.
--
-- Files and code, with paths from the repository's root:
-- Prelude: the shared names; Prelude/Tests, Lists, Outcome, Int, Text and Rows: Boolean tests, lists,
--   results of code that throws, signed integers, texts as code units, updates of rows.
-- Money: apps/api/src/shared/money/minor-units.ts (normalizeCurrencyCode, assertSingleCurrency,
--   assertDatabaseInt).
-- Tax: packages/tax/src/index.ts (computeTax, normalizeTaxPolicy).
-- DocumentNumber: apps/api/src/shared/document-number/document-number.service.ts (next).
-- Database: packages/db/prisma/schema.prisma, the columns that the services use; Database/Transaction
--   is a transaction, a function from the tables to a result and the tables after it, which keeps
--   nothing when it throws. Database/Samples are tables for the tests.
-- Policy/Engine, Policy/Config, Policy/Resolver: policy-engine.ts, policy-config.ts and
--   policy-resolver.ts of apps/api/src/policy.
-- Requisition: apps/api/src/requisition/requisition.service.ts (create, submit).
-- PurchaseOrder/Award, Issue, Status: apps/api/src/purchase-order/purchase-order.service.ts
--   (linesFromAwardedQuote, issue, confirm, requestCancellation).
-- Payment/Create, Run, Settlement: apps/api/src/payment-run/payment-run.service.ts (create; approve,
--   execute, reconcile, voidRun; settlePaidInvoice). Payment/Claims: sequences of these commands.
--   Payment/Machine: a payment run as an abstract machine. Payment/Run/Rivals and Stale: commands whose
--   reads came before another's write.
-- Approval/Decide, Effects, Budget: apps/api/src/approval/approval.service.ts (decide,
--   releaseCommittedBudget).
-- Invoice/Match, Register, Rematch: apps/api/src/invoice/invoice.service.ts (matchAgainstPo,
--   exceedsCapacity, receivedValueForPo, allocatedValueForPo; register; rematchOpenForPo,
--   reevaluateMatchedForPo, assertPoCorrectionAllowed). Invoice/Coverage: what invoices hold of an
--   order against what is received.
-- Receipt: apps/api/src/receipt/receipt.service.ts (record, cancel).
-- Vendor: apps/api/src/vendor/vendor.service.ts (verifyBankAccount).
-- Payment/Beneficiary, Eligibility, Batch: batch.ts, beneficiary-snapshot.ts and
--   payment-eligibility.ts beside it. Journal: apps/api/src/erp/journal.ts.
--
-- Conventions. Ids, users and times are numbers. An amount is an unbounded integer; where the code
-- bounds one to 32 bits the model has the same guard. A row is found as the first with its id. Each
-- service method is one transaction; row and advisory locks make those that touch the same rows
-- serial, and the writes that the code makes conditional on a status stand as such: of a payment run,
-- approve and execute repeat their tests in the write, so an earlier read does no harm. voidRun takes
-- no lock and repeats only the test of the status, so the tables that its reads saw are an argument of
-- their own (Payment/Run, void_run), and sequences of commands allow any. The retry of a transaction whose number was
-- taken is left out, since the lock on the numbers keeps that from happening. The one bound on
-- recursion is that of the digits of a number, which has at most as many digits as its value plus
-- one. The comparison of texts by locale is a parameter of the batch. The ratio of two
-- amounts in basis points, which the code rounds in floating point, is a parameter of the match; it
-- is relied on to be a nearest integer below 2 ^ 32 and at least 10000 where the first amount is at
-- least the second, and Invoice/Match/Nearest is one that is. The tax configuration that a
-- registration reads is an argument, and so is the time.
--
-- Not modelled: the queries that change nothing, routers and the web application, mail, the agent,
-- single sign-on, calls of remote services, hashes and JSON texts, generated code, and
-- sourcing.
pub mod Prelude
pub mod Money
pub mod Tax
pub mod Policy
pub mod Database
pub mod DocumentNumber
pub mod Payment
pub mod Journal
pub mod Requisition
pub mod PurchaseOrder
pub mod Invoice
pub mod Receipt
pub mod Approval
pub mod Vendor
