-- ===== src/Database/Rows.antt =====
-- The rows of the tables. An id, a user and a time are numbers; an amount is an integer of minor
-- units; a nullable column is an `Option`.
use aipms.Prelude.{ℕ, Option, List}
use aipms.Prelude.Int.{ℤ}
use aipms.Prelude.Text.{Text}
use aipms.Policy.Engine.{VendorStatus, GateOutcome, Citation}
use aipms.Policy.Config.{StoredPolicy}
use aipms.Database.Matches.{Terms, MatchResult}
use aipms.Database.Enums.{
  ReqStatus, PoStatus, ApprovalStatus, ApprovalKind, InvoiceStatus, PaymentRunStatus, PaymentStatus,
  ReceiptStatus, QuoteStatus, UserRole,
}

-- The JSON of a bank account: no object, or an object, with each field's text if it is a string.
pub data RawAccount : Type 0 where
  no_object : RawAccount
  object : (bank account_number account_no holder : Option Text) → RawAccount

pub record BatchBeneficiary : Type 0 where
  pub bank : Text
  pub account_number : Text
  pub holder : Text

-- The frozen beneficiary of a payment line (`snapshotSchema`, version 1).
pub record Snapshot : Type 0 where
  pub invoice_number : Text
  pub vendor_id : ℕ
  pub vendor_name : Text
  pub vendor_tax_id : Option Text
  pub bank_account : BatchBeneficiary

pub record User : Type 0 where
  pub id : ℕ
  pub role : UserRole

pub record Vendor : Type 0 where
  pub id : ℕ
  pub name : Text
  pub status : VendorStatus
  pub tax_id : Option Text
  pub bank_account : Option RawAccount
  pub bank_account_verified_at : Option ℕ
  pub bank_account_verified_by : Option ℕ
  pub bank_account_changed_at : Option ℕ
  pub bank_account_submitted_by : Option ℕ

pub record Budget : Type 0 where
  pub id : ℕ
  pub currency_code : Text
  pub limit_minor : ℤ
  pub committed_minor : ℤ
  pub spent_minor : ℤ

-- A line of a requisition or of a purchase order.
pub record OrderLine : Type 0 where
  pub line_no : ℕ
  pub sku : Option Text
  pub description : Text
  pub quantity : ℤ
  pub unit : Text
  pub unit_price_minor : ℤ
  pub currency_code : Text
  pub line_total_minor : ℤ

pub record Requisition : Type 0 where
  pub id : ℕ
  pub request_number : Text
  pub requested_by : ℕ
  pub status : ReqStatus
  pub cost_center : Text
  pub budget_id : Option ℕ
  pub submitted_at : Option ℕ
  pub decided_at : Option ℕ
  pub lines : List OrderLine

pub record PurchaseOrder : Type 0 where
  pub id : ℕ
  pub po_number : Text
  pub requisition_id : Option ℕ
  pub awarded_quote_id : Option ℕ
  pub vendor_id : ℕ
  pub status : PoStatus
  pub currency_code : Text
  pub total_minor : ℤ
  pub terms : Option Terms
  pub issued_by : ℕ
  pub lines : List OrderLine

pub record Approval : Type 0 where
  pub id : ℕ
  pub requisition_id : Option ℕ
  pub po_id : Option ℕ
  pub vendor_id : Option ℕ
  pub kind : ApprovalKind
  pub gate_outcome : GateOutcome
  pub route : List Text
  pub citations : List Citation
  pub status : ApprovalStatus
  pub requested_by : ℕ
  pub decided_by : Option ℕ

pub record Invoice : Type 0 where
  pub id : ℕ
  pub po_id : Option ℕ
  pub vendor_id : ℕ
  pub number : Text
  pub amount_minor : ℤ
  pub vat_minor : ℤ
  pub ewt_minor : ℤ
  pub currency_code : Text
  pub received_at : ℕ
  pub status : InvoiceStatus
  pub match_result : Option MatchResult

pub record PaymentRun : Type 0 where
  pub id : ℕ
  pub run_number : Text
  pub status : PaymentRunStatus
  pub total_minor : ℤ
  pub currency_code : Text
  pub created_by : ℕ
  pub approved_by : Option ℕ
  pub executed_by : Option ℕ
  pub voided_by : Option ℕ
  pub void_reason : Option Text

pub record PaymentRunLine : Type 0 where
  pub id : ℕ
  pub run_id : ℕ
  pub invoice_id : ℕ
  pub beneficiary_snapshot : Snapshot
  pub net_minor : ℤ
  pub status : PaymentStatus

-- A received line. The id of a line of an order is the order's id and the line's number, since an
-- order is created with its lines numbered from 1.
pub record ReceiptLine : Type 0 where
  pub po_line_id : Option (ℕ × ℕ)
  pub line_no : Option ℕ
  pub sku : Option Text
  pub description : Text
  pub quantity : ℤ
  pub unit : Text

pub record Receipt : Type 0 where
  pub id : ℕ
  pub receipt_number : Text
  pub po_id : ℕ
  pub vendor_id : ℕ
  pub status : ReceiptStatus
  pub recorded_by : ℕ
  pub lines : List ReceiptLine

-- A supplier's quote; `lines` are the entries of its JSON array (none if it is no array), each an
-- object or something else.
pub record QuoteLine : Type 0 where
  pub sku : Option Text
  pub description : Option Text
  pub quantity : Option ℤ
  pub unit_price_minor : Option ℤ
  pub amount_minor : Option ℤ

pub record Quote : Type 0 where
  pub id : ℕ
  pub requisition_id : ℕ
  pub vendor_id : ℕ
  pub status : QuoteStatus
  pub currency_code : Text
  pub total_minor : Option ℤ
  pub valid_until : Option ℕ
  pub lines : List (Option QuoteLine)

pub data EventType : Type 0 where
  requisition_submitted requisition_approved requisition_rejected approval_decided : EventType
  po_issued po_confirmed po_cancelled receipt_recorded : EventType
  invoice_received invoice_matched invoice_exception : EventType

-- A row of the outbox: its type and the id of its entity.
pub record DomainEvent : Type 0 where
  pub event_type : EventType
  pub entity_id : ℕ

-- The tables. `next_id` is the id of the next row that is created.
pub record Db : Type 0 where
  pub users : List User
  pub vendors : List Vendor
  pub budgets : List Budget
  pub requisitions : List Requisition
  pub purchase_orders : List PurchaseOrder
  pub approvals : List Approval
  pub invoices : List Invoice
  pub payment_runs : List PaymentRun
  pub payment_run_lines : List PaymentRunLine
  pub receipts : List Receipt
  pub policies : List StoredPolicy
  pub quotes : List Quote
  pub events : List DomainEvent
  pub next_id : ℕ
