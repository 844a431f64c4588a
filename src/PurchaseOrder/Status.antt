-- ===== src/PurchaseOrder/Status.antt =====
-- `confirm` and `requestCancellation` of `PurchaseOrderService`,
-- apps/api/src/purchase-order/purchase-order.service.ts.
pub mod Laws
mod Tests
use aipms.Prelude.{
  ℕ, suc, Bool, true, false, not, ◌&&◌, Option, none, some, List, [], ◌∷◌, ◌++◌, Error, ok, ◌==◌,
  find?, count, update_where, is_ref, if◌then◌else◌,
}
use aipms.Prelude.Text.{units}
use aipms.Policy.Engine.{GateOutcome, Citation}
use aipms.Database.{
  Db, Approval, PurchaseOrder, PoStatus, ApprovalKind, ApprovalStatus, EventType, is_pending,
  is_live, is_issued, is_po_cancellation, Tx, ◌>>=◌, ◌>>◌, pure, gets, modify, emit, or_throw,
  throw_if,
}

abbrev pub find_order : ℕ → Db → Option PurchaseOrder
find_order id db = find? (λ (p : PurchaseOrder). p.id == id) db.purchase_orders

abbrev pub confirmable : ℕ → PurchaseOrder → Bool
confirmable id p = p.id == id && is_issued p.status

abbrev pub set_confirmed : PurchaseOrder → PurchaseOrder
set_confirmed p = record p { status = PoStatus.confirmed }

unfoldable pub confirm : ℕ → Tx PurchaseOrder
confirm id = do
  found ← gets (find_order id)
  po ← or_throw found (Error.not_found "PurchaseOrder not found")
  throw_if (not (is_issued po.status)) (Error.conflict "Only an issued PO can be confirmed")
  updated ← gets (λ db. count (confirmable id) db.purchase_orders)
  throw_if (not (updated == 1)) (Error.conflict "Purchase order changed; reload before confirming")
  modify (λ db. record db {
    purchase_orders = update_where (confirmable id) set_confirmed db.purchase_orders;
  })
  reread ← gets (find_order id)
  confirmed ← or_throw reread (Error.not_found "PurchaseOrder not found")
  emit EventType.po_confirmed confirmed.id
  pure confirmed

-- A pending request for the cancellation of the order.
abbrev pub asks_cancellation : ℕ → Approval → Bool
asks_cancellation id a = is_ref id a.po_id && is_po_cancellation a.kind && is_pending a.status

abbrev pub cancellation_row : ℕ → PurchaseOrder → ℕ → Approval
cancellation_row id po requested_by = record {
  id = id;
  requisition_id = po.requisition_id;
  po_id = some po.id;
  vendor_id = none;
  kind = ApprovalKind.po_cancellation;
  gate_outcome = GateOutcome.need_approval;
  route = units "finance" ∷ [];
  citations = Citation.po_cancellation ∷ [];
  status = ApprovalStatus.pending;
  requested_by = requested_by;
  decided_by = none;
}

-- The request that is pending (the rows are in the order of their creation), or a new one.
unfoldable pub ask_cancellation : PurchaseOrder → ℕ → Tx Approval
ask_cancellation po requested_by db = elim (find? (asks_cancellation po.id) db.approvals) [
  | some existing ↦ ok (existing, db)
  | none ↦ ok (
    cancellation_row db.next_id po requested_by,
    record db {
      approvals = db.approvals ++ cancellation_row db.next_id po requested_by ∷ [];
      next_id = suc db.next_id;
    },
  )
]

unfoldable pub request_cancellation : ℕ → ℕ → Tx Approval
request_cancellation id requested_by = do
  found ← gets (find_order id)
  po ← or_throw found (Error.not_found "PurchaseOrder not found")
  throw_if (not (is_live po.status)) (Error.conflict "Only issued/confirmed POs can be cancelled")
  ask_cancellation po requested_by
