-- ===== src/Approval/Decide/Tests.antt =====
-- Decisions on sample tables.
use aipms.Prelude.{
  ℕ, ◌≡◌, refl, Option, none, some, List, [], ◌∷◌, true, false, ok, err, Error, count, find?, ◌==◌,
}
use aipms.Prelude.Text.{Text, units}
use aipms.Policy.Engine.{GateOutcome}
use aipms.Database.{
  Db, Approval, ApprovalKind, ApprovalStatus, PurchaseOrder, Requisition, ReqStatus, UserRole,
}
use aipms.Approval.Budget.{find_requisition}
use aipms.Database.Samples.{tables}
use aipms.Invoice.Match.Nearest.{nearest_bps}
use aipms.Invoice.Samples.{is_ok, went_through}
use aipms.Approval.Effects.{
  DecideVerdict, DecideResult, is_reject, find_order, is_pending_for, is_rejected_for,
}
use aipms.Approval.Decide.{find_approval, set_verdict, decide}
use aipms.Approval.Decide.Laws.{IsAuthorized}
use aipms.Approval.Decide.Outcome.{decide-IsAuthorized, decide_once}
use aipms.Approval.Decide.Cancel.{CancelOutcome, decide-CancelOutcome}
use aipms.Approval.Decide.Requisition.{decide-approved}

abbrev approval : ℕ → ApprovalKind → Option ℕ → ℕ → Approval
approval id kind po_id requisition_id = record {
  id = id;
  requisition_id = some requisition_id;
  po_id = po_id;
  vendor_id = none;
  kind = kind;
  gate_outcome = GateOutcome.need_approval;
  route = units "finance" ∷ [];
  citations = [];
  status = ApprovalStatus.pending;
  requested_by = 1;
  decided_by = none;
}

abbrev spend : Approval
spend = approval 60 ApprovalKind.threshold none 3

abbrev cancellation : Approval
cancellation = approval 61 ApprovalKind.po_cancellation (some 20) 6

abbrev asked : Db
asked = record tables {
  users = record { id = 2; role = UserRole.finance } ∷ [];
  approvals = spend ∷ cancellation ∷ [];
}

approves : is_ok (decide nearest_bps 60 DecideVerdict.approve 2 none 9 asked) ≡ true
unfolding decide aipms.Approval.Decide.authorize aipms.Prelude.Text.text_eq
    aipms.Approval.Decide.write_verdict aipms.Approval.Decide.take_effect
    aipms.Approval.Effects.advance_requisition aipms.Approval.Effects.move_requisition
    aipms.Approval.Effects.gathered_status
approves = refl

abbrev approved :
    (given : DecideResult) × (db : Db) × (decide nearest_bps 60 DecideVerdict.approve 2 none 9 asked
      ≡ ok (given, db))
approved = went_through (decide nearest_bps 60 DecideVerdict.approve 2 none 9 asked) approves

decide-IsAuthorized_example :
    (a : Approval) × (find_approval 60 asked ≡ some a)
    × IsAuthorized DecideVerdict.approve 2 none a asked
    × (find_approval 60 (approved.1) ≡ some (set_verdict DecideVerdict.approve 2 a))
decide-IsAuthorized_example =
    decide-IsAuthorized nearest_bps 60 DecideVerdict.approve 2 none 9 asked approved.1 approved.0
      approved.2

decide_once_example :
    decide nearest_bps 60 DecideVerdict.reject 4 none 10 (approved.1)
    ≡ err (Error.conflict "Approval already decided")
decide_once_example =
    decide_once nearest_bps 60 DecideVerdict.approve DecideVerdict.reject 2 4 none none 9 10 asked
      approved.1 approved.0 approved.2

given-approved : (approved.0).requisition_status ≡ some ReqStatus.approved
unfolding decide went_through aipms.Approval.Decide.authorize aipms.Prelude.Text.text_eq
    aipms.Approval.Decide.write_verdict aipms.Approval.Decide.take_effect
    aipms.Approval.Effects.advance_requisition aipms.Approval.Effects.move_requisition
    aipms.Approval.Effects.gathered_status
given-approved = refl

decide-approved_example :
    (row : Requisition) × (find_requisition 3 (approved.1) ≡ some row)
    × (row.status ≡ ReqStatus.approved)
    × (row.status ≡ ReqStatus.approved
        → (count (is_pending_for 3) (approved.1).approvals ≡ 0)
          × (count (is_rejected_for 3) (approved.1).approvals ≡ 0)
          × (is_reject DecideVerdict.approve ≡ false))
decide-approved_example =
    decide-approved nearest_bps 60 DecideVerdict.approve 2 none 9 asked approved.1 approved.0 spend
      3 ReqStatus.approved refl refl given-approved approved.2

cancels : is_ok (decide nearest_bps 61 DecideVerdict.approve 2 none 9 asked) ≡ true
unfolding decide aipms.Approval.Decide.authorize aipms.Prelude.Text.text_eq
    aipms.Approval.Decide.write_verdict aipms.Approval.Decide.take_effect
    aipms.Approval.Effects.cancel_order aipms.Approval.Effects.cancel_live_order
    aipms.Invoice.Rematch.assert_po_correction_allowed aipms.Invoice.Rematch.sort_by
    aipms.Invoice.Rematch.insert_by aipms.Invoice.Rematch.reevaluate_matched_for_po
    aipms.Invoice.Rematch.reevaluate_loop aipms.Invoice.Rematch.reevaluate_one
    aipms.Invoice.Rematch.keep_or_demote aipms.Invoice.Match.match_against_po
    aipms.Invoice.Match.match_with aipms.Invoice.Match.refusal
    aipms.Invoice.Register.emit_status_events aipms.Approval.Budget.release_committed_budget
    aipms.Approval.Budget.release_from aipms.Approval.Effects.advance_requisition
    aipms.Approval.Effects.gathered_status aipms.Approval.Effects.move_requisition
    aipms.Approval.Effects.qualify_vendor aipms.Approval.Effects.reject_requisition
    aipms.Invoice.Match.allocated_value aipms.Invoice.Match.allows_partial
    aipms.Invoice.Match.coverage aipms.Invoice.Match.exceeds_capacity aipms.Invoice.Match.line_at
    aipms.Invoice.Match.receipt_value aipms.Invoice.Match.receipts_result
    aipms.Invoice.Match.received_value aipms.Invoice.Register.status_for
    aipms.Money.assert_database_int aipms.Money.assert_database_int_from aipms.Money.is_code
    aipms.Money.is_letter aipms.Money.normalize_currency_code aipms.Payment.Create.on_live_run
    aipms.Payment.Create.reserves aipms.Prelude.Int.sum_of aipms.Prelude.Int.◌*ℤ◌
    aipms.Prelude.Int.◌+ℤ◌ aipms.Prelude.Int.◌-ℤ◌ aipms.Prelude.Text.is_space
    aipms.Prelude.Text.to_upper_case aipms.Prelude.Text.trim aipms.Prelude.Text.trim_start
    aipms.Prelude.Text.upper_unit
cancels = refl

abbrev cancelled :
    (given : DecideResult) × (db : Db) × (decide nearest_bps 61 DecideVerdict.approve 2 none 9 asked
      ≡ ok (given, db))
cancelled = went_through (decide nearest_bps 61 DecideVerdict.approve 2 none 9 asked) cancels

decide-CancelOutcome_example :
    (po_id : ℕ) × (po : PurchaseOrder) × (cancellation.po_id ≡ some po_id)
    × (find_order po_id asked ≡ some po)
    × CancelOutcome cancellation po asked (cancelled.1)
decide-CancelOutcome_example =
    decide-CancelOutcome nearest_bps 61 DecideVerdict.approve 2 none 9 asked cancelled.1 cancelled.0
      cancellation refl refl refl cancelled.2
