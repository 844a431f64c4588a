-- ===== src/Approval/Effects.antt =====
-- What a decision does to the subject of its approval, `decide` of
-- apps/api/src/approval/approval.service.ts.
pub mod Cancellation
use aipms.Prelude.{
  ℕ, Bool, true, false, not, ◌&&◌, ◌||◌, Option, none, some, List, [], Error, find?, any, count,
  update_where, is_ref, eq_opt, is_some, ltb, ◌==◌, if◌then◌else◌,
}
use aipms.Database.{
  Db, Approval, PurchaseOrder, PoStatus, Requisition, ReqStatus, Receipt, Vendor, ApprovalKind,
  EventType, is_live, is_po_cancelled, is_recorded, is_pending, is_approval_rejected, Tx, ◌>>=◌,
  ◌>>◌, pure, throw, gets, modify, emit, or_throw, throw_if,
}
use aipms.Policy.Engine.{VendorStatus}
use aipms.Invoice.Match.{counts_for}
use aipms.Invoice.Rematch.{assert_po_correction_allowed, reevaluate_matched_for_po}
use aipms.Approval.Budget.{release_committed_budget, find_requisition}

pub data DecideVerdict : Type 0 where
  approve reject override : DecideVerdict

pub data DecideOutcome : Type 0 where
  approved rejected overridden po_cancelled kept : DecideOutcome

pub record DecideResult : Type 0 where
  pub approval : Approval
  pub outcome : DecideOutcome
  pub requisition_status : Option ReqStatus
  pub po_status : Option PoStatus

abbrev pub is_reject : DecideVerdict → Bool
is_reject DecideVerdict.reject = true
is_reject _ = false

-- `verdict === 'override' ? 'OVERRIDDEN' : 'APPROVED'`
abbrev pub outcome_of : DecideVerdict → DecideOutcome
outcome_of DecideVerdict.override = DecideOutcome.overridden
outcome_of _ = DecideOutcome.approved

abbrev pub result : Approval → DecideOutcome → DecideResult
result a outcome = record {
  approval = a;
  outcome = outcome;
  requisition_status = none;
  po_status = none;
}

abbrev pub find_order : ℕ → Db → Option PurchaseOrder
find_order id db = find? (λ (p : PurchaseOrder). p.id == id) db.purchase_orders

abbrev pub set_po_cancelled : PurchaseOrder → PurchaseOrder
set_po_cancelled p = record p { status = PoStatus.cancelled }

abbrev pub cancel_rows : ℕ → Db → Db
cancel_rows id db = record db {
  purchase_orders =
      update_where (λ (p : PurchaseOrder). p.id == id) set_po_cancelled db.purchase_orders;
}

-- An update by id, which throws where there is no row.
abbrev missing : Error
missing = Error.plain_error "Record to update not found"

module _ (ratio_bps : ℕ → ℕ → ℕ) where
  -- The cancellation of a live order, with the corrections that follow from it.
  unfoldable pub cancel_live_order : Approval → PurchaseOrder → Tx DecideResult
  cancel_live_order updated po = do
    invoices ← assert_po_correction_allowed po.id
    received ← gets (λ db. any (counts_for po.id) db.receipts)
    throw_if received (Error.conflict "PO has a recorded receipt; resolve it before cancellation")
    modify (cancel_rows po.id)
    summary ← reevaluate_matched_for_po ratio_bps po.id
    release_committed_budget po.requisition_id po.total_minor po.currency_code
    emit EventType.po_cancelled po.id
    pure
        (record (result updated DecideOutcome.po_cancelled) { po_status = some PoStatus.cancelled })

  abbrev pub cancel_found : Approval → Approval → PurchaseOrder → Tx DecideResult
  cancel_found a updated po = do
    throw_if (not (is_live po.status)) (Error.conflict "only issued/confirmed POs can be cancelled")
    throw_if (not (eq_opt a.requisition_id po.requisition_id))
        (Error.conflict "Cancellation approval does not match the purchase order requisition")
    cancel_live_order updated po

  abbrev pub cancel_unless_done : Approval → Approval → PurchaseOrder → Tx DecideResult
  cancel_unless_done a updated po =
      if is_po_cancelled po.status
      then pure (record (result updated DecideOutcome.kept) { po_status = some po.status })
      else cancel_found a updated po

  -- The approval before and after the decision; an order that is cancelled already is kept so.
  unfoldable pub cancel_order : Approval → Approval → Tx DecideResult
  cancel_order a updated = do
    po_id ← or_throw a.po_id (Error.conflict "PO cancellation approval has no purchase order")
    found ← gets (find_order po_id)
    po ← or_throw found (Error.not_found "PurchaseOrder not found")
    cancel_unless_done a updated po

abbrev pub set_active : Vendor → Vendor
set_active v = record v { status = VendorStatus.active }

-- `vendor.update({ data: { status: 'active' } })`
unfoldable pub qualify_vendor : ℕ → Tx (Unit {0})
qualify_vendor id = do
  there ← gets (λ db. any (λ (v : Vendor). v.id == id) db.vendors)
  throw_if (not there) missing
  modify (λ db. record db {
    vendors = update_where (λ (v : Vendor). v.id == id) set_active db.vendors;
  })

abbrev pub set_decided : ReqStatus → ℕ → Requisition → Requisition
set_decided status now r = record r { status = status; decided_at = some now }

-- `requisition.update` of a status.
unfoldable pub move_requisition : ℕ → ReqStatus → ℕ → Tx (Unit {0})
move_requisition id status now = do
  there ← gets (λ db. any (λ (r : Requisition). r.id == id) db.requisitions)
  throw_if (not there) missing
  modify (λ db. record db {
    requisitions =
        update_where (λ (r : Requisition). r.id == id) (set_decided status now) db.requisitions;
  })

abbrev pub is_pending_for : ℕ → Approval → Bool
is_pending_for id a = is_ref id a.requisition_id && is_pending a.status

abbrev pub is_rejected_for : ℕ → Approval → Bool
is_rejected_for id a = is_ref id a.requisition_id && is_approval_rejected a.status

-- Where the approvals of a requisition have got it to.
unfoldable pub gathered_status : ℕ → Db → ReqStatus
gathered_status id db =
    if ltb 0 (count (is_rejected_for id) db.approvals)
    then ReqStatus.rejected
    else if count (is_pending_for id) db.approvals == 0
    then ReqStatus.approved
    else ReqStatus.submitted

abbrev pub emit_if_approved : ReqStatus → ℕ → Tx (Unit {0})
emit_if_approved ReqStatus.approved id = emit EventType.requisition_approved id
emit_if_approved _ id = pure tt

unfoldable pub reject_requisition : Approval → ℕ → ℕ → Tx DecideResult
reject_requisition updated id now = do
  move_requisition id ReqStatus.rejected now
  emit EventType.requisition_rejected id
  pure (record (result updated DecideOutcome.rejected) {
    requisition_status = some ReqStatus.rejected;
  })

unfoldable pub advance_requisition : Approval → ℕ → DecideVerdict → ℕ → Tx DecideResult
advance_requisition updated id verdict now = do
  status ← gets (gathered_status id)
  move_requisition id status now
  emit_if_approved status id
  pure (record (result updated (outcome_of verdict)) { requisition_status = some status })
