-- ===== src/Database/Enums.antt =====
-- The enumerations of packages/db/prisma/schema.prisma, with the tests that the code writes by
-- `===` and by `in`.
use aipms.Prelude.{Bool, true, false}

pub data ReqStatus : Type 0 where
  draft submitted approved rejected exception cancelled : ReqStatus

pub data PoStatus : Type 0 where
  draft issued confirmed cancelled : PoStatus

pub data ApprovalStatus : Type 0 where
  pending approved rejected overridden : ApprovalStatus

pub data ApprovalKind : Type 0 where
  threshold budget_override vendor_gate policy_gate po_cancellation : ApprovalKind

pub data InvoiceStatus : Type 0 where
  received matched exception paid : InvoiceStatus

pub data PaymentRunStatus : Type 0 where
  draft approved executed reconciled voided : PaymentRunStatus

pub data PaymentStatus : Type 0 where
  planned paid dishonored rejected : PaymentStatus

pub data ReceiptStatus : Type 0 where
  recorded cancelled : ReceiptStatus

pub data QuoteStatus : Type 0 where
  requested received accepted rejected : QuoteStatus

pub data UserRole : Type 0 where
  admin finance procurement user : UserRole

abbrev pub is_req_draft : ReqStatus → Bool
is_req_draft ReqStatus.draft = true
is_req_draft _ = false

abbrev pub is_req_approved : ReqStatus → Bool
is_req_approved ReqStatus.approved = true
is_req_approved _ = false

abbrev pub is_issued : PoStatus → Bool
is_issued PoStatus.issued = true
is_issued _ = false

abbrev pub is_po_cancelled : PoStatus → Bool
is_po_cancelled PoStatus.cancelled = true
is_po_cancelled _ = false

-- `status === 'issued' || status === 'confirmed'`
abbrev pub is_live : PoStatus → Bool
is_live PoStatus.issued = true
is_live PoStatus.confirmed = true
is_live _ = false

abbrev pub is_pending : ApprovalStatus → Bool
is_pending ApprovalStatus.pending = true
is_pending _ = false

abbrev pub is_approval_rejected : ApprovalStatus → Bool
is_approval_rejected ApprovalStatus.rejected = true
is_approval_rejected _ = false

abbrev pub is_po_cancellation : ApprovalKind → Bool
is_po_cancellation ApprovalKind.po_cancellation = true
is_po_cancellation _ = false

abbrev pub is_vendor_gate : ApprovalKind → Bool
is_vendor_gate ApprovalKind.vendor_gate = true
is_vendor_gate _ = false

abbrev pub is_matched : InvoiceStatus → Bool
is_matched InvoiceStatus.matched = true
is_matched _ = false

abbrev pub is_invoice_paid : InvoiceStatus → Bool
is_invoice_paid InvoiceStatus.paid = true
is_invoice_paid _ = false

abbrev pub is_run_draft : PaymentRunStatus → Bool
is_run_draft PaymentRunStatus.draft = true
is_run_draft _ = false

abbrev pub is_run_approved : PaymentRunStatus → Bool
is_run_approved PaymentRunStatus.approved = true
is_run_approved _ = false

abbrev pub is_executed : PaymentRunStatus → Bool
is_executed PaymentRunStatus.executed = true
is_executed _ = false

abbrev pub is_voided : PaymentRunStatus → Bool
is_voided PaymentRunStatus.voided = true
is_voided _ = false

abbrev pub is_planned : PaymentStatus → Bool
is_planned PaymentStatus.planned = true
is_planned _ = false

abbrev pub is_line_paid : PaymentStatus → Bool
is_line_paid PaymentStatus.paid = true
is_line_paid _ = false

abbrev pub is_recorded : ReceiptStatus → Bool
is_recorded ReceiptStatus.recorded = true
is_recorded _ = false

abbrev pub is_accepted : QuoteStatus → Bool
is_accepted QuoteStatus.accepted = true
is_accepted _ = false

abbrev pub is_admin : UserRole → Bool
is_admin UserRole.admin = true
is_admin _ = false
