-- ===== src/Requisition/Laws.antt =====
-- When a submission is approved without a person.
use aipms.Prelude.{
  ℕ, ◌≡◌, refl, true, false, Option, none, some, ok, arith, or_else, subst, sym, ◌∙◌, ◌≤◌, count,
}
use aipms.Prelude.Int.{ℤ, pos, ◌≤ℤ◌, ◌-ℤ◌}
use aipms.Policy.Engine.{PolicyRow, GateDecision, GateOutcome, scope_applies, over_budget}
use aipms.Policy.Engine.Laws.{Allows, IsPositive, evaluate_threshold_gate_iff}
use aipms.Policy.Resolver.{resolve_effective_policy}
use aipms.Database.{Db, Requisition, Budget, ReqStatus}
use aipms.Requisition.{submit, find_own, find_budget, gate_context, next_status, total_of}
use aipms.Requisition.Steps.{has_id, IsLeft, submit_lem, submit-moved}

-- The requisition names a budget that has its total left.
abbrev pub HasBudgetFor : Db → Requisition → Type 0
HasBudgetFor db r =
    (budget_id : ℕ) × (budget : Budget) × (r.budget_id ≡ some budget_id)
    × (find_budget budget_id db ≡ some budget)
    × (total_of r ≤ℤ budget.limit_minor -ℤ budget.committed_minor -ℤ budget.spent_minor)

over_budget-HasBudgetFor :
    (db : Db) (r : Requisition) (policy : PolicyRow) (left : Option ℤ) (b : Option ℕ)
    → r.budget_id ≡ b
    → IsLeft db b left
    → over_budget policy.config (gate_context r left) ≡ false
    → policy.config.budget_required ≡ true
    → HasBudgetFor db r
unfolding over_budget
over_budget-HasBudgetFor db r policy left none e l within required = absurd (ground arith)
over_budget-HasBudgetFor db r policy left (some b) e (budget, on_file, is_left) within required =
    (b, budget, e, on_file, ground arith)

-- A stored policy in force covers the cost center, with a limit of at least the total.
abbrev pub HasLimitFor : Db → Requisition → PolicyRow → Type 0
HasLimitFor db r policy =
    (resolve_effective_policy r.cost_center db.policies ≡ ok (some policy))
    × (scope_applies policy.config.scope r.cost_center ≡ true)
    × (total_of r ≤ℤ or_else policy.config.auto_approve_up_to (pos 0))

passed_policy :
    (db : Db) (r : Requisition) (policy : Option PolicyRow) (left : Option ℤ)
    → resolve_effective_policy r.cost_center db.policies ≡ ok policy
    → IsLeft db r.budget_id left
    → Allows policy (gate_context r left)
    → (row : PolicyRow) × HasLimitFor db r row
      × (row.config.budget_required ≡ true → HasBudgetFor db r)
passed_policy db r none left resolved budget a = absurd a
passed_policy db r (some row) left resolved budget a =
    (row, (resolved, a.0, a.2), over_budget-HasBudgetFor db r row left r.budget_id refl budget a.1)

next_status-approved : (o : GateOutcome) → next_status o ≡ ReqStatus.approved → o ≡ GateOutcome.pass
next_status-approved o h = ground arith

-- Where ids of requisitions are keys: a submission gives a requisition as approved, and leaves it
-- so, only if the decision is a pass, its total is positive, a stored policy in force covers its
-- cost center with a limit of at least its total, and, where that policy asks for a budget, the
-- requisition names a budget whose limit less what is committed and spent is at least its total.
pub submit_auto_approved :
    (id : ℕ) (by : Option ℕ) (now : ℕ) (db db' : Db) (after : Requisition) (d : GateDecision)
    → count (has_id id) db.requisitions ≤ 1
    → submit id by now db ≡ ok ((after, d), db')
    → after.status ≡ ReqStatus.approved
    → (r : Requisition) × (policy : PolicyRow) × (find_own id by db ≡ some r)
      × (find_own id none db' ≡ some after)
      × (d.outcome ≡ GateOutcome.pass)
      × IsPositive (total_of r)
      × HasLimitFor db r policy
      × (policy.config.budget_required ≡ true → HasBudgetFor db r)
submit_auto_approved id by now db db' after d one h approved =
    let (r, found, draft, decided, written, there) = submit_lem id by now db db' after d h in
    let (same, status) = submit-moved id now by db db' after r d one found draft written there in
    let pass = next_status-approved d.outcome (sym status ∙ approved) in
    let (policy, left, resolved, budget, decision) = decided in
    let allowed =
      (evaluate_threshold_gate_iff policy (gate_context r left)).0.0
        (subst (λ (x : GateDecision). x.outcome ≡ GateOutcome.pass) decision pass) in
    let (row, limit, within) = passed_policy db r policy left resolved budget allowed.1 in
    (r, row, found, there, pass, allowed.0, limit, within)
