-- ===== src/PurchaseOrder/Issue.antt =====
-- `issue`, `confirm` and `requestCancellation` of `PurchaseOrderService`,
-- apps/api/src/purchase-order/purchase-order.service.ts. The terms of an order are
-- kept as far as the match of an invoice reads them.
pub mod Laws
pub mod Limits
mod Tests
use aipms.Prelude.{
  ℕ, suc, ◌+◌, Bool, true, false, not, ◌&&◌, ◌||◌, Option, none, some, List, [], ◌∷◌, ◌++◌, map,
  Error, Result, ok, err, ◌==◌, find?, filter, count, any, update_where, length, ltb, is_ref,
  if◌then◌else◌,
}
use aipms.Prelude
use aipms.Prelude.Int.{ℤ, ◌+ℤ◌, ltb_ℤ}
use aipms.Prelude.Text.{Text, text_eq, units}
use aipms.Money.{assert_database_int, assert_single_currency, normalize_currency_code}
use aipms.Policy.Engine.{GateDecision, GateOutcome, Citation, evaluate_vendor_gate, VendorStatus}
use aipms.Database.{
  Terms, Db, Requisition, OrderLine, Approval, Budget, Vendor, Quote, PurchaseOrder, PoStatus,
  ApprovalKind, ApprovalStatus, EventType, is_req_approved, is_po_cancelled, is_accepted,
  is_vendor_gate, is_pending, is_live, is_issued, is_po_cancellation, Tx, ◌>>=◌, ◌>>◌, pure, throw,
  lift, gets, modify, emit, or_throw, throw_if,
}
use aipms.DocumentNumber.{next, latest}
use aipms.PurchaseOrder.Award.{lines_from_awarded_quote, total_of_lines}

pub record IssueInput : Type 0 where
  pub requisition_id : ℕ
  pub vendor_id : ℕ
  pub terms : Option Terms

pub data IssueResult : Type 0 where
  issued : PurchaseOrder → IssueResult
  need_approval : (vendor_id requisition_id : ℕ) → IssueResult

abbrev pub find_requisition : ℕ → Db → Option Requisition
find_requisition id db = find? (λ (r : Requisition). r.id == id) db.requisitions

abbrev pub find_vendor : ℕ → Db → Option Vendor
find_vendor id db = find? (λ (v : Vendor). v.id == id) db.vendors

abbrev pub find_budget : ℕ → Db → Option Budget
find_budget id db = find? (λ (b : Budget). b.id == id) db.budgets

-- An order of the requisition that is not cancelled.
abbrev pub orders : ℕ → PurchaseOrder → Bool
orders requisition_id po =
    is_ref requisition_id po.requisition_id && not (is_po_cancelled po.status)

-- The reads before the transaction.
unfoldable pub issue_precheck : IssueInput → Tx (Unit {0})
issue_precheck input = do
  found ← gets (find_requisition input.requisition_id)
  r ← or_throw found (Error.not_found "Requisition not found")
  throw_if (not (is_req_approved r.status))
      (Error.conflict "Requisition must be approved before a PO is issued")
  or_throw r.budget_id (Error.conflict "Requisition has no budget") >>= λ _.
      gets (find_vendor input.vendor_id) >>= λ vendor.
      or_throw vendor (Error.not_found "Vendor not found") >>= λ _. pure tt

abbrev pub quotes_of : ℕ → Db → List Quote
quotes_of id db = filter (λ (q : Quote). q.requisition_id == id) db.quotes

abbrev pub head_of : List Quote → Option Quote
head_of [] = none
head_of (q ∷ qs) = some q

abbrev has_quotes : List Quote → Bool
has_quotes [] = false
has_quotes (q ∷ qs) = true

-- `validUntil != null && validUntil < now`
abbrev pub has_expired : ℕ → Option ℕ → Bool
has_expired now none = false
has_expired now (some until) = ltb until now

unfoldable pub check_award : Option Quote → ℕ → ℕ → Tx (Unit {0})
check_award none vendor_id now = pure tt
check_award (some quote) vendor_id now = do
  throw_if (not (quote.vendor_id == vendor_id))
      (Error.conflict "PO vendor must match the vendor on the accepted quote")
  throw_if (has_expired now quote.valid_until) (Error.conflict "Accepted quote has expired")

-- The awarded quote of a requisition: exactly one where there are quotes at all.
unfoldable pub awarded_quote : ℕ → ℕ → ℕ → Tx (Option Quote)
awarded_quote requisition_id vendor_id now = do
  sourcing ← gets (quotes_of requisition_id)
  let accepted = filter (λ (q : Quote). is_accepted q.status) sourcing
  throw_if (has_quotes sourcing && not (length accepted == 1))
      (Error.conflict "Sourced requisition requires exactly one accepted quote before PO issue")
  check_award (head_of accepted) vendor_id now
  pure (head_of accepted)

abbrev pub gate_row : ℕ → ℕ → ℕ → ℕ → GateDecision → Approval
gate_row id requisition_id vendor_id actor d = record {
  id = id;
  requisition_id = some requisition_id;
  po_id = none;
  vendor_id = some vendor_id;
  kind = ApprovalKind.vendor_gate;
  gate_outcome = GateOutcome.need_approval;
  route = Prelude.or_else d.approvers [];
  citations = d.citations;
  status = ApprovalStatus.pending;
  requested_by = actor;
  decided_by = none;
}

abbrev pub add_approval : (ℕ → Approval) → Db → Db
add_approval row db = record db {
  approvals = db.approvals ++ row db.next_id ∷ [];
  next_id = suc db.next_id;
}

-- A vendor that needs an approval: the approval is asked for unless it is pending already.
unfoldable pub ask_vendor_approval : ℕ → ℕ → ℕ → GateDecision → Tx IssueResult
ask_vendor_approval requisition_id vendor_id actor d db = ok (
  IssueResult.need_approval vendor_id requisition_id,
  if any
        (λ (a : Approval).
          is_ref requisition_id a.requisition_id
          && is_ref vendor_id a.vendor_id
          && is_vendor_gate a.kind
          && is_pending a.status)
        db.approvals
      then db
      else add_approval (λ id. gate_row id requisition_id vendor_id actor d) db,
)

-- The lines of the requisition, numbered from `n` on.
unfoldable pub ordered_lines : ℕ → List OrderLine → Result (List OrderLine)
ordered_lines n [] = ok []
ordered_lines n (line ∷ lines) =
    let rest = ordered_lines (suc n) lines in
    Prelude.◌>>=◌ (normalize_currency_code line.currency_code) (λ code.
      Prelude.◌>>=◌ rest (λ ls. ok (record line { line_no = n; currency_code = code } ∷ ls)))

unfoldable pub po_lines : Option Quote → Requisition → Text → Result (List OrderLine)
po_lines none r currency = ordered_lines 1 r.lines
po_lines (some quote) r currency = lines_from_awarded_quote quote currency

unfoldable pub check_quote_currency : Option Quote → Text → Tx (Unit {0})
check_quote_currency none currency = pure tt
check_quote_currency (some quote) currency = do
  code ← lift (normalize_currency_code quote.currency_code)
  throw_if (not (text_eq code currency))
      (Error.bad_request "Accepted quote currency must match the requisition and budget")

abbrev pub commit : ℤ → Budget → Budget
commit total b = record b { committed_minor = b.committed_minor +ℤ total }

abbrev pub id_of : Option Quote → Option ℕ
id_of none = none
id_of (some q) = some q.id

-- The order is created, its total is committed, and the event is emitted.
unfoldable pub insert_order :
    Requisition
    → Option Quote
    → ℕ
    → ℕ
    → ℕ
    → Option Terms
    → Text
    → ℤ
    → List OrderLine
    → Tx IssueResult
insert_order r quote vendor_id budget_id actor terms currency total lines db =
    let po : PurchaseOrder = record {
      id = db.next_id;
      po_number =
          next (units "PO-") (latest (map (λ (p : PurchaseOrder). p.po_number) db.purchase_orders));
      requisition_id = some r.id;
      awarded_quote_id = id_of quote;
      vendor_id = vendor_id;
      status = PoStatus.issued;
      currency_code = currency;
      total_minor = total;
      terms = terms;
      issued_by = actor;
      lines = lines;
    } in
    ok (
      IssueResult.issued po,
      record db {
        purchase_orders = db.purchase_orders ++ po ∷ [];
        budgets = update_where (λ (b : Budget). b.id == budget_id) (commit total) db.budgets;
        events =
            db.events ++ record { event_type = EventType.po_issued; entity_id = db.next_id } ∷ [];
        next_id = suc db.next_id;
      },
    )

-- The commitment of the order's total to the budget, and the order.
unfoldable pub commit_order : Requisition → Option Quote → ℕ → ℕ → ℕ → Option Terms → Tx IssueResult
commit_order r quote vendor_id budget_id actor terms = do
  found ← gets (find_budget budget_id)
  budget ← or_throw found (Error.not_found "Budget not found")
  currency ← lift (assert_single_currency (map (λ (l : OrderLine). l.currency_code) r.lines))
  code ← lift (normalize_currency_code budget.currency_code)
  throw_if (not (text_eq code currency))
      (Error.bad_request "Requisition currency must match its budget currency")
  check_quote_currency quote currency
  lines ← lift (po_lines quote r currency)
  total ← lift (assert_database_int (total_of_lines lines))
  throw_if (ltb_ℤ budget.limit_minor (budget.committed_minor +ℤ budget.spent_minor +ℤ total))
      (Error.conflict "Budget overrun; commit would exceed the remaining limit")
  insert_order r quote vendor_id budget_id actor terms currency total lines

-- The vendor gate, and what follows it.
unfoldable pub gate_and_commit :
    Requisition → Option Quote → Vendor → ℕ → ℕ → Option Terms → Tx IssueResult
gate_and_commit r quote vendor budget_id actor terms =
    let d = evaluate_vendor_gate vendor.status in
    elim d.outcome [
      | GateOutcome.block ↦ throw (Error.conflict d.reason)
      | GateOutcome.need_approval ↦ ask_vendor_approval r.id vendor.id actor d
      | GateOutcome.pass ↦ commit_order r quote vendor.id budget_id actor terms
    ]

-- The transaction, which reads the requisition and the vendor again.
unfoldable pub issue_attempt : IssueInput → ℕ → ℕ → Tx IssueResult
issue_attempt input actor now = do
  found ← gets (find_requisition input.requisition_id)
  r ← or_throw found (Error.conflict "Requisition must be approved before a PO is issued")
  throw_if (not (is_req_approved r.status))
      (Error.conflict "Requisition must be approved before a PO is issued")
  budget_id ← or_throw r.budget_id (Error.conflict "Requisition has no budget")
  ordered ← gets (λ db. any (orders r.id) db.purchase_orders)
  throw_if ordered (Error.conflict "Requisition already has a purchase order")
  quote ← awarded_quote r.id input.vendor_id now
  on_file ← gets (find_vendor input.vendor_id)
  vendor ← or_throw on_file (Error.not_found "Vendor not found")
  gate_and_commit r quote vendor budget_id actor input.terms

unfoldable pub issue : IssueInput → ℕ → ℕ → Tx IssueResult
issue input actor now = do issue_precheck input; issue_attempt input actor now
