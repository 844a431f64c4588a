-- ===== src/Payment/Settlement.antt =====
-- The settlement of a paid invoice against its budget, `settlePaidInvoice` of
-- apps/api/src/payment-run/payment-run.service.ts.
pub mod Laws
mod Tests
use aipms.Prelude.{
  ℕ, Bool, Option, none, some, List, Error, ◌==◌, find?, update_where, if◌then◌else◌,
}
use aipms.Prelude.Int.{ℤ, pos, ◌+ℤ◌, ◌-ℤ◌, ltb_ℤ}
use aipms.Database.{
  Db, Invoice, InvoiceStatus, Budget, PurchaseOrder, Requisition, is_invoice_paid, Tx, ◌>>=◌, ◌>>◌,
  pure, gets, modify, or_throw,
}

-- The budget that an invoice is charged to: invoice → purchase order → requisition → budget. A link
-- that is missing ends the search.
abbrev pub requisition_of : List PurchaseOrder → Option ℕ → Option ℕ
requisition_of orders none = none
requisition_of orders (some po_id) = elim (find? (λ (po : PurchaseOrder). po.id == po_id) orders) [
  | none ↦ none
  | some po ↦ po.requisition_id
]

abbrev pub budget_of : List Requisition → Option ℕ → Option ℕ
budget_of requisitions none = none
budget_of requisitions (some req_id) =
    elim (find? (λ (r : Requisition). r.id == req_id) requisitions) [
      | none ↦ none
      | some req ↦ req.budget_id
    ]

unfoldable pub charged_budget : Db → Invoice → Option ℕ
charged_budget db invoice =
    budget_of db.requisitions (requisition_of db.purchase_orders invoice.po_id)

-- `Math.max(0, committedMinor - amount)`, and the amount added to what is spent.
abbrev pub settle_budget : ℤ → Budget → Budget
settle_budget amount b =
    let rest = b.committed_minor -ℤ amount in
    record b {
      committed_minor = if ltb_ℤ rest (pos 0) then pos 0 else rest;
      spent_minor = b.spent_minor +ℤ amount;
    }

abbrev pub set_paid : Invoice → Invoice
set_paid i = record i { status = InvoiceStatus.paid }

-- A budget that is not there is left out, as `updateMany` does.
unfoldable pub charge : Option ℕ → ℤ → Db → Db
charge none amount db = db
charge (some id) amount db = record db {
  budgets = update_where (λ (b : Budget). b.id == id) (settle_budget amount) db.budgets;
}

unfoldable pub settle_paid_invoice : ℕ → Tx (Unit {0})
settle_paid_invoice id = do
  invoice ←
      or_throw (← gets (λ db. find? (λ (i : Invoice). i.id == id) db.invoices))
        (Error.not_found "Invoice not found")
  if is_invoice_paid invoice.status
      then pure tt
      else modify (λ db.
        charge (charged_budget db invoice) invoice.amount_minor (record db {
          invoices = update_where (λ (i : Invoice). i.id == id) set_paid db.invoices;
        }))
