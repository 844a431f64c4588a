-- ===== src/Invoice/Samples.antt =====
-- Tables for the tests of invoices and receipts: an order for four pens, of which two are received, with one
-- invoice that is matched and one that waits.
use aipms.Prelude.{
  ℕ, ◌≡◌, refl, Bool, true, false, none, some, List, [], ◌∷◌, Result, ok, err, arith,
}
use aipms.Prelude.Int.{pos}
use aipms.Prelude.Text.{units}
use aipms.Database.{Db, PurchaseOrder, Invoice, InvoiceStatus, Receipt, ReceiptStatus, ReceiptLine}
use aipms.Database.Samples.{pens, order, invoice, tables}
use aipms.Invoice.Coverage.Ledger.{Ledger, IsCovered}

abbrev pub is_ok {ℓ} : {A : Type ℓ} → Result A → Bool
is_ok (ok _) = true
is_ok (err _) = false

-- The value and the tables of a command that goes through.
unfoldable pub went_through {ℓ} :
    {A : Type ℓ} (r : Result (A × Db)) → is_ok r ≡ true → (a : A) × (db : Db) × (r ≡ ok (a, db))
went_through (ok (a, db)) h = (a, db, refl)
went_through (err e) h = absurd (ground arith)

abbrev pub pens_order : PurchaseOrder
pens_order = record order {
  total_minor = pos 4000;
  lines = pens ∷ [];
  terms = some (record {
    allow_partial_invoicing = true;
    billing_type = none;
    has_milestones = false;
    has_installments = false;
  });
}

abbrev pub two_pens : ReceiptLine
two_pens = record {
  po_line_id = some (20, 1);
  line_no = some 1;
  sku = none;
  description = units "Pens";
  quantity = pos 2;
  unit = units "ea";
}

abbrev pub delivery : Receipt
delivery = record {
  id = 50;
  receipt_number = units "RCT-000001";
  po_id = 20;
  vendor_id = 7;
  status = ReceiptStatus.recorded;
  recorded_by = 1;
  lines = two_pens ∷ [];
}

abbrev pub waiting : Invoice
waiting = record invoice { id = 31; number = units "INV-2"; status = InvoiceStatus.received }

abbrev pub pens_tables : Db
pens_tables = record tables {
  purchase_orders = pens_order ∷ [];
  invoices = invoice ∷ waiting ∷ [];
  receipts = delivery ∷ [];
}

pub pens_tables-Ledger : Ledger pens_order pens_tables
pens_tables-Ledger = record {
  found = refl;
  unique = ((refl, tt), (tt, tt));
  amounts = ((omega arith, omega arith), ((omega arith, omega arith), tt));
  fresh = (omega arith, (omega arith, tt));
  prices = (omega arith, tt);
  quantities = ((omega arith, tt), tt);
}

pub pens_tables-IsCovered : IsCovered pens_order pens_tables
unfolding aipms.Invoice.Match.allocated_value aipms.Invoice.Match.received_value
    aipms.Invoice.Match.receipt_value aipms.Invoice.Match.line_at aipms.Prelude.Int.sum_of
    aipms.Prelude.Int.◌+ℤ◌ aipms.Prelude.Int.◌*ℤ◌
pens_tables-IsCovered = omega arith
