-- ===== src/Policy/Engine/Tests.antt =====
-- Decisions of the gate for a limit of 5000 and a required budget.
use aipms.Prelude.{◌≡◌, ◌↔◌, refl, true, some, none}
use aipms.Prelude.Int.{pos, ◌≤ℤ◌}
use aipms.Prelude.Text.{units}
use aipms.Policy.Engine.{PolicyRow, GateContext, GateOutcome, evaluate_threshold_gate}
use aipms.Policy.Engine.Laws.{IsPositive, Allows, evaluate_threshold_gate_iff}

abbrev limit : PolicyRow
limit = record {
  name = units "Limit";
  version = 1;
  config = record {
    scope = none;
    auto_approve_up_to = some (pos 5000);
    approval_chain = none;
    budget_required = true;
  };
}

abbrev spend : GateContext
spend = record {
  cost_center = units "HQ";
  amount_minor = pos 5000;
  budget_assigned = true;
  budget_remaining_minor = some (pos 6000);
}

evaluate_threshold_gate_iff_example :
    let d = evaluate_threshold_gate (some limit) spend in
    ((d.outcome ≡ GateOutcome.pass) ↔ (IsPositive spend.amount_minor × Allows (some limit) spend))
    × ((d.outcome ≡ GateOutcome.block) ↔ (spend.amount_minor ≤ℤ pos 0))
evaluate_threshold_gate_iff_example = evaluate_threshold_gate_iff (some limit) spend

passes : (evaluate_threshold_gate (some limit) spend).outcome ≡ GateOutcome.pass
unfolding evaluate_threshold_gate aipms.Policy.Engine.covers aipms.Policy.Engine.scope_applies
    aipms.Policy.Engine.threshold_decision aipms.Policy.Engine.over_budget
passes = refl
