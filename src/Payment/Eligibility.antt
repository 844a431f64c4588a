-- ===== src/Payment/Eligibility.antt =====
-- Live purchase orders of the invoices of a plan, payment-run/payment-eligibility.ts.
use aipms.Prelude.{ℕ, Bool, true, not, ◌&&◌, Option, none, some, List, any, all, Error, ◌==◌}
use aipms.Database.{Invoice, PurchaseOrder, Tx, is_live, throw_if}

-- `liveIds.has(poId)`
unfoldable pub has_live_order : List PurchaseOrder → ℕ → Bool
has_live_order orders id = any (λ (po : PurchaseOrder). po.id == id && is_live po.status) orders

-- `invoice.poId === null` or the order is live.
unfoldable pub is_eligible : List PurchaseOrder → Option ℕ → Bool
is_eligible orders none = true
is_eligible orders (some id) = has_live_order orders id

unfoldable pub assert_live_invoice_purchase_orders : List Invoice → Tx (Unit {0})
assert_live_invoice_purchase_orders invoices db =
    throw_if (not (all (λ (i : Invoice). is_eligible db.purchase_orders i.po_id) invoices))
      (Error.conflict "references a missing or non-live PO") db
