-- ===== src/Policy/Engine.antt =====
-- The policy engine, apps/api/src/policy/policy-engine.ts. A role, a scope and a cost center are
-- texts; a citation is kept as the parts that its text is built from.
pub mod Laws
mod Tests
use aipms.Prelude.{
  ℕ, Bool, true, false, not, ◌&&◌, ◌||◌, Option, none, some, List, [], ◌∷◌, ◌++◌, String, ◌==◌,
  is_some, or_else, if◌then◌else◌,
}
use aipms.Prelude.Int.{ℤ, pos, ltb_ℤ, leb_ℤ}
use aipms.Prelude.Text.{Text, text_eq, units}

pub record ThresholdPolicyConfig : Type 0 where
  pub scope : Option Text
  pub auto_approve_up_to : Option ℤ
  pub approval_chain : Option (List Text)
  pub budget_required : Bool

-- The part of a policy row that the gate reads.
pub record PolicyRow : Type 0 where
  pub name : Text
  pub version : ℕ
  pub config : ThresholdPolicyConfig

pub record GateContext : Type 0 where
  pub cost_center : Text
  pub amount_minor : ℤ
  pub budget_assigned : Bool
  pub budget_remaining_minor : Option ℤ

pub data GateOutcome : Type 0 where
  pass need_approval block : GateOutcome

pub data GateKind : Type 0 where
  threshold budget_override vendor_gate policy_gate : GateKind

pub data VendorStatus : Type 0 where
  prospective active watch blacklisted : VendorStatus

pub data Citation : Type 0 where
  policy_version : Text → ℕ → Citation
  no_applicable_policy vendor_blacklist po_cancellation : Citation
  vendor_status : VendorStatus → Citation

pub record GateDecision : Type 0 where
  pub outcome : GateOutcome
  pub gate_kind : GateKind
  pub citations : List Citation
  pub approvers : Option (List Text)
  pub reason : String

-- `.` of a regular expression: no line terminator.
abbrev pub is_dot : ℕ → Bool
is_dot c = not (c == 10 || c == 13 || c == 0x2028 || c == 0x2029)

abbrev pub all_dots : Text → Bool
all_dots [] = true
all_dots (c ∷ s) = is_dot c && all_dots s

-- What follows `prefix` in a text, if it starts so.
unfoldable pub strip : Text → Text → Option Text
strip [] s = some s
strip (p ∷ ps) [] = none
strip (p ∷ ps) (c ∷ s) = if p == c then strip ps s else none

abbrev pub cost_center_prefix : Text
cost_center_prefix = units "costCenter:"

-- /^costCenter:(.+)$/
unfoldable pub cost_center_match : Text → Option Text
cost_center_match scope = elim (strip cost_center_prefix scope) [
  | none ↦ none
  | some [] ↦ none
  | some (c ∷ s) ↦ if all_dots (c ∷ s) then some (c ∷ s) else none
]

unfoldable pub scope_applies : Option Text → Text → Bool
scope_applies none cost_center = true
scope_applies (some []) cost_center = true
scope_applies (some (c ∷ s)) cost_center = elim (cost_center_match (c ∷ s)) [
  | some group ↦ text_eq group cost_center
  | none ↦ text_eq (c ∷ s) cost_center
]

-- `config.approvalChain?.length ? config.approvalChain : ['finance']`
unfoldable pub chain_or_finance : Option (List Text) → List Text
chain_or_finance none = units "finance" ∷ []
chain_or_finance (some []) = units "finance" ∷ []
chain_or_finance (some (a ∷ chain)) = a ∷ chain

abbrev pub below : Option ℤ → ℤ → Bool
below none amount = false
below (some remaining) amount = ltb_ℤ remaining amount

unfoldable pub over_budget : ThresholdPolicyConfig → GateContext → Bool
over_budget config ctx =
    config.budget_required
    && (not ctx.budget_assigned || below ctx.budget_remaining_minor ctx.amount_minor)

-- A policy that is not there, or whose scope does not cover the cost center.
unfoldable pub covers : Option PolicyRow → Text → Bool
covers none cost_center = false
covers (some policy) cost_center = scope_applies policy.config.scope cost_center

abbrev pub cite : Option PolicyRow → List Citation
cite none = []
cite (some policy) = Citation.policy_version policy.name policy.version ∷ []

-- The part of the gate behind the tests of amount and scope.
unfoldable pub threshold_decision :
    ThresholdPolicyConfig → List Citation → GateContext → GateDecision
threshold_decision config citations ctx =
    if over_budget config ctx
    then record {
      outcome = GateOutcome.need_approval;
      gate_kind = GateKind.budget_override;
      citations = citations;
      approvers = some (chain_or_finance config.approval_chain);
      reason =
          if not ctx.budget_assigned
          then "Budget required but none assigned"
          else "Spend exceeds remaining budget";
    }
    else if leb_ℤ ctx.amount_minor (or_else config.auto_approve_up_to (pos 0))
    then record {
      outcome = GateOutcome.pass;
      gate_kind = GateKind.threshold;
      citations = citations;
      approvers = none;
      reason = "Within auto-approve limit";
    }
    else record {
      outcome = GateOutcome.need_approval;
      gate_kind = GateKind.threshold;
      citations = citations;
      approvers = some (chain_or_finance config.approval_chain);
      reason = "Exceeds auto-approve limit";
    }

unfoldable pub uncovered_decision : List Citation → GateDecision
uncovered_decision citations = record {
  outcome = GateOutcome.need_approval;
  gate_kind = GateKind.threshold;
  citations = citations ++ Citation.no_applicable_policy ∷ [];
  approvers = some (units "finance" ∷ []);
  reason = "No threshold rule covers this spend";
}

abbrev pub covered_decision : Option PolicyRow → GateContext → GateDecision
covered_decision none ctx = uncovered_decision []
covered_decision (some policy) ctx = threshold_decision policy.config (cite (some policy)) ctx

unfoldable pub evaluate_threshold_gate : Option PolicyRow → GateContext → GateDecision
evaluate_threshold_gate policy ctx =
    if leb_ℤ ctx.amount_minor (pos 0)
    then record {
      outcome = GateOutcome.block;
      gate_kind = GateKind.policy_gate;
      citations = cite policy;
      approvers = none;
      reason = "Amount must be positive";
    }
    else if not (covers policy ctx.cost_center)
    then uncovered_decision (cite policy)
    else covered_decision policy ctx

unfoldable pub evaluate_vendor_gate : VendorStatus → GateDecision
evaluate_vendor_gate VendorStatus.blacklisted = record {
  outcome = GateOutcome.block;
  gate_kind = GateKind.vendor_gate;
  citations = Citation.vendor_blacklist ∷ [];
  approvers = none;
  reason = "Vendor is blacklisted";
}
evaluate_vendor_gate VendorStatus.active = record {
  outcome = GateOutcome.pass;
  gate_kind = GateKind.vendor_gate;
  citations = [];
  approvers = none;
  reason = "Vendor qualified";
}
evaluate_vendor_gate status = record {
  outcome = GateOutcome.need_approval;
  gate_kind = GateKind.vendor_gate;
  citations = Citation.vendor_status status ∷ [];
  approvers = some (units "procurement" ∷ []);
  reason = "Vendor is not qualified (active)";
}
