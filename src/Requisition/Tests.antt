-- ===== src/Requisition/Tests.antt =====
-- The creation and the submission of the sample requisition.
use aipms.Prelude.{ℕ, ◌≡◌, refl, true, [], ◌∷◌, ◌++◌, ok, none, some, map, arith}
use aipms.Prelude.Int.{pos}
use aipms.Prelude.Text.{Text, units}
use aipms.Money.{assert_single_currency}
use aipms.Policy.Engine.{PolicyRow, GateDecision, GateOutcome, GateKind, Citation}
use aipms.Policy.Engine.Laws.{IsPositive}
use aipms.Database.{Db, Requisition, Approval, OrderLine, ReqStatus, EventType}
use aipms.Database.Samples.{tables, requisition}
use aipms.Requisition.{CreateRequisition, create, submit, find_own, total_of, moved, decision_row}
use aipms.Requisition.Laws.{HasBudgetFor, HasLimitFor, submit_auto_approved}
use aipms.Requisition.Lines.{AreLinesOf, IsInRange, create_lem}

abbrev passed : GateDecision
passed = record {
  outcome = GateOutcome.pass;
  gate_kind = GateKind.threshold;
  citations = Citation.policy_version (units "Limit") 1 ∷ [];
  approvers = none;
  reason = "Within auto-approve limit";
}

abbrev approved : Requisition
approved = moved ReqStatus.approved 60 (requisition 3 ReqStatus.draft)

abbrev after : Db
after = record tables {
  requisitions =
      record (requisition 6 ReqStatus.approved) { request_number = units "REQ-000000" }
      ∷ approved
      ∷ requisition 4 ReqStatus.approved
      ∷ [];
  approvals = decision_row 100 (requisition 3 ReqStatus.draft) passed ∷ [];
  events = record { event_type = EventType.requisition_approved; entity_id = 3 } ∷ [];
  next_id = 101;
}

submits : submit 3 (some 1) 60 tables ≡ ok ((approved, passed), after)
unfolding submit find_own aipms.Requisition.assert_budget_currency aipms.Requisition.find_budget
    aipms.Requisition.remaining_budget aipms.Requisition.record_decision
    aipms.Requisition.decide_submission aipms.Policy.Resolver.precedes
    aipms.Policy.Resolver.insert_policy aipms.Policy.Resolver.sort_policies
    aipms.Policy.Resolver.group aipms.Policy.Resolver.candidates
    aipms.Policy.Resolver.effective_head aipms.Policy.Resolver.resolve_effective_policy
    aipms.Policy.Config.canonical_scope aipms.Policy.Config.policy_scope
    aipms.Policy.Config.validate_policy_config aipms.Policy.Engine.strip
    aipms.Policy.Engine.cost_center_match aipms.Policy.Engine.scope_applies
    aipms.Policy.Engine.chain_or_finance aipms.Policy.Engine.over_budget aipms.Policy.Engine.covers
    aipms.Policy.Engine.threshold_decision aipms.Policy.Engine.uncovered_decision
    aipms.Policy.Engine.evaluate_threshold_gate assert_single_currency aipms.Money.currency_set
    aipms.Money.normalize_currency_code aipms.Money.is_code aipms.Money.only_currency
    aipms.Money.is_letter aipms.Money.assert_database_int aipms.Money.assert_database_int_from
    aipms.Prelude.Text.to_upper_case aipms.Prelude.Text.trim aipms.Prelude.Text.trim_start
    aipms.Prelude.Text.is_space aipms.Prelude.Text.upper_unit aipms.Prelude.Text.text_eq
    aipms.Prelude.Int.sum_of aipms.Prelude.Int.◌+ℤ◌ aipms.Prelude.Int.◌-ℤ◌ aipms.Prelude.Int.◌*ℤ◌
submits = refl

submit_auto_approved_example :
    (r : Requisition) × (policy : PolicyRow) × (find_own 3 (some 1) tables ≡ some r)
    × (find_own 3 none after ≡ some approved)
    × (passed.outcome ≡ GateOutcome.pass)
    × IsPositive (total_of r)
    × HasLimitFor tables r policy
    × (policy.config.budget_required ≡ true → HasBudgetFor tables r)
submit_auto_approved_example =
    submit_auto_approved 3 (some 1) 60 tables after approved passed (omega arith) submits refl

abbrev input : CreateRequisition
input = record {
  requested_by = 1;
  cost_center = units "HQ";
  budget_id = some 5;
  lines =
      record {
        sku = none;
        description = units "Pens";
        quantity = pos 4;
        unit = none;
        unit_price_minor = pos 1000;
        currency_code = none;
      }
      ∷ [];
}

abbrev created : Requisition
created = record (requisition 100 ReqStatus.draft) { request_number = units "REQ-000002" }

abbrev with_created : Db
with_created = record tables { requisitions = tables.requisitions ++ created ∷ []; next_id = 101 }

creates : create input tables ≡ ok (created, with_created)
unfolding create aipms.Requisition.checked_line aipms.Requisition.checked_lines
    aipms.Requisition.assert_budget_currency aipms.Requisition.find_budget
    aipms.Requisition.check_budget aipms.Requisition.insert_requisition assert_single_currency
    aipms.Money.currency_set aipms.Money.normalize_currency_code aipms.Money.is_code
    aipms.Money.only_currency aipms.Money.is_letter aipms.Money.assert_database_int
    aipms.Money.assert_database_int_from aipms.Prelude.Text.to_upper_case aipms.Prelude.Text.trim
    aipms.Prelude.Text.trim_start aipms.Prelude.Text.is_space aipms.Prelude.Text.upper_unit
    aipms.Prelude.Text.text_eq aipms.Prelude.Int.sum_of aipms.Prelude.Int.◌+ℤ◌
    aipms.Prelude.Int.◌-ℤ◌ aipms.Prelude.Int.◌*ℤ◌ aipms.DocumentNumber.digits_from
    aipms.DocumentNumber.latest aipms.DocumentNumber.next aipms.DocumentNumber.pad_start
    aipms.DocumentNumber.parse_digits aipms.DocumentNumber.parse_int aipms.DocumentNumber.sequence
    aipms.DocumentNumber.slice aipms.DocumentNumber.text_lt aipms.DocumentNumber.to_digits
    aipms.DocumentNumber.zeros
creates = refl

create_lem_example :
    (created.status ≡ ReqStatus.draft)
    × (created.requested_by ≡ input.requested_by)
    × (created.budget_id ≡ input.budget_id)
    × AreLinesOf 1 input.lines created.lines
    × IsInRange (total_of created)
    × (with_created.requisitions ≡ tables.requisitions ++ created ∷ [])
    × (currency : Text) × (assert_single_currency
          (map (λ (l : OrderLine). l.currency_code) created.lines)
        ≡ ok currency)
create_lem_example = create_lem input tables with_created created creates
