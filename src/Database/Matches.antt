-- ===== src/Database/Matches.antt =====
-- The JSON columns of orders and invoices that the match of an invoice reads and writes: `terms` of an
-- order and `MatchResult` of apps/api/src/invoice/invoice.service.ts.
use aipms.Prelude.{ℕ, Bool, Option}
use aipms.Prelude.Int.{ℤ}
use aipms.Prelude.Text.{Text}

-- The fields of the terms that the match reads: `allowPartialInvoicing === true`, the billing type
-- if it is a text, and whether milestones and installments are there and not null.
pub record Terms : Type 0 where
  pub allow_partial_invoicing : Bool
  pub billing_type : Option Text
  pub has_milestones : Bool
  pub has_installments : Bool

pub data MatchOutcome : Type 0 where
  matched po_not_found po_not_live vendor_mismatch currency_mismatch : MatchOutcome
  amount_mismatch awaiting_receipt receipt_shortfall over_allocated : MatchOutcome

pub record MatchResult : Type 0 where
  pub po_id : ℕ
  pub po_total_minor : Option ℤ
  pub invoice_total_minor : ℤ
  pub variance_minor : ℤ
  pub variance_bps : ℕ
  pub vendor_matched : Bool
  pub amount_matched : Bool
  pub outcome : MatchOutcome
  pub is_partial : Bool
  pub po_remaining_minor : Option ℤ
  pub received_value_minor : Option ℤ
  pub allocated_minor : Option ℤ
