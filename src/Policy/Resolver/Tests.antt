-- ===== src/Policy/Resolver/Tests.antt =====
-- The sample policy is in force for a cost center.
use aipms.Prelude.{◌≡◌, refl, [], ◌∷◌, ok, some, none, true}
use aipms.Prelude.Int.{pos}
use aipms.Prelude.Text.{units}
use aipms.Policy.Engine.{PolicyRow}
use aipms.Database.Samples.{policy}
use aipms.Policy.Resolver.{resolve_effective_policy}
use aipms.Policy.Resolver.Laws.{IsInForce, resolve_effective_policy_lem}

abbrev in_force : PolicyRow
in_force = record {
  name = units "Limit";
  version = 1;
  config = record {
    scope = none;
    auto_approve_up_to = some (pos 5000);
    approval_chain = none;
    budget_required = true;
  };
}

resolves : resolve_effective_policy (units "HQ") (policy ∷ []) ≡ ok (some in_force)
unfolding resolve_effective_policy aipms.Policy.Resolver.insert_policy
    aipms.Policy.Resolver.sort_policies aipms.Policy.Resolver.group aipms.Policy.Resolver.candidates
    aipms.Policy.Resolver.effective_head aipms.Policy.Config.policy_scope
    aipms.Policy.Config.validate_policy_config aipms.Prelude.Text.text_eq
resolves = refl

resolve_effective_policy_lem_example : IsInForce (units "HQ") (policy ∷ []) in_force
resolve_effective_policy_lem_example =
    resolve_effective_policy_lem (units "HQ") (policy ∷ []) in_force resolves
