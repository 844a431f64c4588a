-- ===== src/Policy/Engine/Laws.antt =====
-- When the gates pass, ask for an approval, or block.
use aipms.Prelude.{
  ◌≡◌, ◌≢◌, ◌↔◌, refl, true, false, not, if◌then◌else◌, Option, none, some, List, [], ◌∷◌, or_else,
  arith, Bool-cases, inl, inr,
}
use aipms.Prelude.Int.{ℤ, pos, ◌≤ℤ◌, leb_ℤ}
use aipms.Prelude.Text.{Text}
use aipms.Policy.Engine.{
  ThresholdPolicyConfig, PolicyRow, GateContext, cite, GateOutcome, evaluate_threshold_gate,
  threshold_decision, uncovered_decision, covered_decision, over_budget, covers, chain_or_finance,
  scope_applies,
}

abbrev pub IsPositive : ℤ → Type 0
IsPositive a = ¬ (a ≤ℤ pos 0)

-- A policy whose scope covers the cost center, whose budget rule is met, and whose limit is not
-- exceeded.
abbrev pub Allows : Option PolicyRow → GateContext → Type 0
Allows none ctx = ⊥
Allows (some policy) ctx =
    (scope_applies policy.config.scope ctx.cost_center ≡ true)
    × (over_budget policy.config ctx ≡ false)
    × (ctx.amount_minor ≤ℤ or_else policy.config.auto_approve_up_to (pos 0))

-- A spend passes the gate exactly when its amount is positive and there is a policy whose scope
-- covers the cost center, whose budget rule is met and whose limit is at least the amount; it is
-- blocked exactly when its amount is not positive.
pub evaluate_threshold_gate_iff :
    (policy : Option PolicyRow) (ctx : GateContext)
    → let d = evaluate_threshold_gate policy ctx in
      ((d.outcome ≡ GateOutcome.pass) ↔ (IsPositive ctx.amount_minor × Allows policy ctx))
      × ((d.outcome ≡ GateOutcome.block) ↔ (ctx.amount_minor ≤ℤ pos 0))
unfolding evaluate_threshold_gate threshold_decision uncovered_decision covers
evaluate_threshold_gate_iff none ctx =
    ((λ h. ground arith, λ h. absurd h.1), (λ h. ground arith, λ h. ground arith))
evaluate_threshold_gate_iff (some policy) ctx =
    ((λ h. ground arith, λ h. ground arith), (λ h. ground arith, λ h. ground arith))

-- A route with at least one role.
abbrev pub HasApprover : Option (List Text) → Type 0
HasApprover none = ⊥
HasApprover (some []) = ⊥
HasApprover (some (role ∷ rest)) = Unit

chain_or_finance-HasApprover :
    (chain : Option (List Text)) → HasApprover (some (chain_or_finance chain))
unfolding chain_or_finance
chain_or_finance-HasApprover none = tt
chain_or_finance-HasApprover (some []) = tt
chain_or_finance-HasApprover (some (role ∷ rest)) = tt

threshold_decision-HasApprover :
    (policy : PolicyRow) (ctx : GateContext)
    → let d = covered_decision (some policy) ctx in
      ((d.outcome ≡ GateOutcome.need_approval) → HasApprover d.approvers)
      × (d.outcome ≢ GateOutcome.need_approval → d.approvers ≡ none)
unfolding threshold_decision
threshold_decision-HasApprover policy ctx =
    let route = chain_or_finance-HasApprover policy.config.approval_chain in
    elim (Bool-cases (over_budget policy.config ctx)) [
      | inl over ↦ (rw over (λ _. route), rw over (λ ne. absurd (ne refl)))
      | inr within ↦
          rw within
            elim (Bool-cases
              (leb_ℤ ctx.amount_minor (or_else policy.config.auto_approve_up_to (pos 0)))) [
                | inl auto ↦ (rw auto (λ e. cc), rw auto (λ _. refl))
                | inr above ↦ (rw above (λ _. route), rw above (λ ne. absurd (ne refl)))
              ]
    ]

-- A decision that asks for approval has a route with at least one role, and any other decision has
-- no route.
pub evaluate_threshold_gate-approvers :
    (policy : Option PolicyRow) (ctx : GateContext)
    → let d = evaluate_threshold_gate policy ctx in
      ((d.outcome ≡ GateOutcome.need_approval) → HasApprover d.approvers)
      × (d.outcome ≢ GateOutcome.need_approval → d.approvers ≡ none)
unfolding evaluate_threshold_gate uncovered_decision covers
evaluate_threshold_gate-approvers policy ctx = elim (Bool-cases (leb_ℤ ctx.amount_minor (pos 0))) [
  | inl blocked ↦ (rw blocked (λ e. cc), rw blocked (λ _. refl))
  | inr positive ↦ rw positive (covered policy)
]
  where
    covered :
        (p : Option PolicyRow)
        → let d =
            if not (covers p ctx.cost_center)
            then uncovered_decision (cite p)
            else covered_decision p ctx in
          ((d.outcome ≡ GateOutcome.need_approval) → HasApprover d.approvers)
          × (d.outcome ≢ GateOutcome.need_approval → d.approvers ≡ none)
    covered none = (λ _. tt, λ ne. absurd (ne refl))
    covered (some row) = elim (Bool-cases (scope_applies row.config.scope ctx.cost_center)) [
      | inl applies ↦ rw applies (threshold_decision-HasApprover row ctx)
      | inr not_covered ↦ rw not_covered (λ _. tt, λ ne. absurd (ne refl))
    ]

over_budget_mono :
    (config : ThresholdPolicyConfig) (ctx : GateContext) (amount : ℤ)
    → amount ≤ℤ ctx.amount_minor
    → over_budget config ctx ≡ false
    → over_budget config (record ctx { amount_minor = amount }) ≡ false
unfolding over_budget
over_budget_mono config ctx amount le h = ground arith

-- What passes the gate for an amount passes it for every smaller positive amount.
pub evaluate_threshold_gate_mono :
    (policy : Option PolicyRow) (ctx : GateContext) (amount : ℤ)
    → IsPositive amount
    → amount ≤ℤ ctx.amount_minor
    → (evaluate_threshold_gate policy ctx).outcome ≡ GateOutcome.pass
    → (evaluate_threshold_gate policy (record ctx { amount_minor = amount })).outcome
      ≡ GateOutcome.pass
evaluate_threshold_gate_mono none ctx amount positive le h =
    absurd ((evaluate_threshold_gate_iff none ctx).0.0 h).1
evaluate_threshold_gate_mono (some policy) ctx amount positive le h =
    let allowed = (evaluate_threshold_gate_iff (some policy) ctx).0.0 h in
    (evaluate_threshold_gate_iff (some policy) (record ctx { amount_minor = amount })).0.1 (
      positive,
      (allowed.1.0, over_budget_mono policy.config ctx amount le allowed.1.1, omega arith),
    )
