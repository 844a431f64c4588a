-- ===== src/Database/Samples.antt =====
-- Tables for the tests: one vendor, budget and policy, two requisitions, an order, an invoice and
-- three payment runs.
use aipms.Prelude.{ℕ, true, false, none, some, List, [], ◌∷◌}
use aipms.Prelude.Int.{pos}
use aipms.Prelude.Text.{Text, units}
use aipms.Policy.Engine.{VendorStatus}
use aipms.Policy.Config.{RawConfig, Field, StoredPolicy}
use aipms.Database.Enums.{ReqStatus, PoStatus, InvoiceStatus, PaymentRunStatus}
use aipms.Database.Rows.{
  Db, Vendor, Budget, OrderLine, Requisition, PurchaseOrder, Invoice, PaymentRun, RawAccount,
  Snapshot,
}

abbrev pub php : Text
php = units "PHP"

abbrev pub account : RawAccount
account = RawAccount.object (some (units " BPI ")) (some (units "123")) none (some (units "ACME"))

abbrev pub vendor : Vendor
vendor = record {
  id = 7;
  name = units "Acme, Inc.";
  status = VendorStatus.active;
  tax_id = none;
  bank_account = some account;
  bank_account_verified_at = some 1;
  bank_account_verified_by = some 2;
  bank_account_changed_at = none;
  bank_account_submitted_by = none;
}

abbrev pub budget : Budget
budget = record {
  id = 5;
  currency_code = php;
  limit_minor = pos 9000;
  committed_minor = pos 3000;
  spent_minor = pos 0;
}

abbrev pub pens : OrderLine
pens = record {
  line_no = 1;
  sku = none;
  description = units "Pens";
  quantity = pos 4;
  unit = units "ea";
  unit_price_minor = pos 1000;
  currency_code = php;
  line_total_minor = pos 4000;
}

abbrev pub requisition : ℕ → ReqStatus → Requisition
requisition id status = record {
  id = id;
  request_number = units "REQ-000001";
  requested_by = 1;
  status = status;
  cost_center = units "HQ";
  budget_id = some 5;
  submitted_at = none;
  decided_at = none;
  lines = pens ∷ [];
}

abbrev pub policy : StoredPolicy
policy = record {
  id = 9;
  name = units "Limit";
  enabled = true;
  version = 1;
  created_at = 1;
  config = RawConfig.object (record {
    scope = Field.absent;
    auto_approve_up_to = Field.given (pos 5000);
    approval_chain = Field.absent;
    budget_required = Field.given true;
    has_more = false;
  });
}

abbrev pub order : PurchaseOrder
order = record {
  id = 20;
  po_number = units "PO-000001";
  requisition_id = some 6;
  awarded_quote_id = none;
  vendor_id = 7;
  status = PoStatus.confirmed;
  currency_code = php;
  total_minor = pos 3000;
  terms = none;
  issued_by = 1;
  lines = [];
}

abbrev pub invoice : Invoice
invoice = record {
  id = 30;
  po_id = some 20;
  vendor_id = 7;
  number = units "INV-1";
  amount_minor = pos 1000;
  vat_minor = pos 120;
  ewt_minor = pos 10;
  currency_code = php;
  received_at = 10;
  status = InvoiceStatus.matched;
  match_result = none;
}

abbrev pub snapshot : Snapshot
snapshot = record {
  invoice_number = units "INV-1";
  vendor_id = 7;
  vendor_name = units "Acme, Inc.";
  vendor_tax_id = none;
  bank_account = record { bank = units "BPI"; account_number = units "123"; holder = units "ACME" };
}

abbrev pub run : ℕ → PaymentRunStatus → PaymentRun
run id status = record {
  id = id;
  run_number = units "RUN-000001";
  status = status;
  total_minor = pos 1110;
  currency_code = php;
  created_by = 1;
  approved_by = none;
  executed_by = none;
  voided_by = none;
  void_reason = none;
}

-- The tables with no payment run.
abbrev pub tables : Db
tables = record {
  users = [];
  vendors = vendor ∷ [];
  budgets = budget ∷ [];
  requisitions =
      record (requisition 6 ReqStatus.approved) { request_number = units "REQ-000000" }
      ∷ requisition 3 ReqStatus.draft
      ∷ requisition 4 ReqStatus.approved
      ∷ [];
  purchase_orders = order ∷ [];
  approvals = [];
  invoices = invoice ∷ [];
  payment_runs = [];
  payment_run_lines = [];
  receipts = [];
  policies = policy ∷ [];
  quotes = [];
  events = [];
  next_id = 100;
}

-- The tables with the payment runs that are given.
abbrev pub with_runs : List PaymentRun → Db
with_runs runs = record tables { payment_runs = runs }
