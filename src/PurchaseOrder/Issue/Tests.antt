-- ===== src/PurchaseOrder/Issue/Tests.antt =====
-- The issue of an order for the approved sample requisition.
use aipms.Prelude.{◌≡◌, refl, [], ◌∷◌, ok, ◌++◌, some, none, arith}
use aipms.Prelude.Int.{pos}
use aipms.Prelude.Text.{units}
use aipms.Database.{Db, PurchaseOrder, PoStatus, EventType}
use aipms.Database.Samples.{tables, order, budget, pens, php}
use aipms.PurchaseOrder.Issue.{IssueInput, IssueResult, issue}
use aipms.PurchaseOrder.Issue.Laws.{Issued, issue_lem}
use aipms.PurchaseOrder.Issue.Limits.{IsOrderly, issue-IsOrderly}

abbrev input : IssueInput
input = record { requisition_id = 4; vendor_id = 7; terms = none }

abbrev new_order : PurchaseOrder
new_order = record {
  id = 100;
  po_number = units "PO-000002";
  requisition_id = some 4;
  awarded_quote_id = none;
  vendor_id = 7;
  status = PoStatus.issued;
  currency_code = php;
  total_minor = pos 4000;
  terms = none;
  issued_by = 2;
  lines = pens ∷ [];
}

abbrev after : Db
after = record tables {
  purchase_orders = order ∷ new_order ∷ [];
  budgets = record budget { committed_minor = pos 7000 } ∷ [];
  events = record { event_type = EventType.po_issued; entity_id = 100 } ∷ [];
  next_id = 101;
}

issues : issue input 2 50 tables ≡ ok (IssueResult.issued new_order, after)
unfolding issue aipms.Policy.Engine.evaluate_vendor_gate aipms.PurchaseOrder.Issue.issue_precheck
    aipms.PurchaseOrder.Issue.issue_attempt aipms.PurchaseOrder.Issue.awarded_quote
    aipms.PurchaseOrder.Issue.check_award aipms.PurchaseOrder.Issue.gate_and_commit
    aipms.PurchaseOrder.Issue.commit_order aipms.PurchaseOrder.Issue.check_quote_currency
    aipms.PurchaseOrder.Issue.insert_order aipms.PurchaseOrder.Issue.ordered_lines
    aipms.PurchaseOrder.Issue.po_lines aipms.Money.assert_single_currency aipms.Money.currency_set
    aipms.Money.normalize_currency_code aipms.Money.is_code aipms.Money.only_currency
    aipms.Money.is_letter aipms.Money.assert_database_int aipms.Money.assert_database_int_from
    aipms.Prelude.Text.to_upper_case aipms.Prelude.Text.trim aipms.Prelude.Text.trim_start
    aipms.Prelude.Text.is_space aipms.Prelude.Text.upper_unit aipms.Prelude.Text.text_eq
    aipms.Prelude.Int.sum_of aipms.Prelude.Int.◌+ℤ◌ aipms.DocumentNumber.digits_from
    aipms.DocumentNumber.latest aipms.DocumentNumber.next aipms.DocumentNumber.pad_start
    aipms.DocumentNumber.parse_digits aipms.DocumentNumber.parse_int aipms.DocumentNumber.sequence
    aipms.DocumentNumber.slice aipms.DocumentNumber.text_lt aipms.DocumentNumber.to_digits
    aipms.DocumentNumber.zeros
issues = refl

issue_lem_example : Issued input new_order tables after
issue_lem_example = issue_lem input 2 50 tables after new_order issues

tables-IsOrderly : IsOrderly tables
unfolding aipms.Prelude.Int.◌+ℤ◌
tables-IsOrderly = record {
  budget_ids = λ i. ground arith;
  within = (omega arith, tt);
  ordered_once = λ i. ground arith;
}

issue-IsOrderly_example : IsOrderly after
issue-IsOrderly_example =
    issue-IsOrderly input 2 50 tables after (IssueResult.issued new_order) tables-IsOrderly issues
