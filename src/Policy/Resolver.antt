-- ===== src/Policy/Resolver.antt =====
-- The policy in force, apps/api/src/policy/policy-resolver.ts, over the stored threshold policies.
pub mod Laws
mod Tests
use aipms.Prelude.{
  Bool, not, ◌&&◌, ◌||◌, Option, none, some, List, [], ◌∷◌, ◌++◌, Result, ok, Error, ◌>>=◌, ◌>>◌,
  throw_if, filter, any, ltb, leb, ◌==◌, if◌then◌else◌,
}
use aipms.Prelude.Text.{Text, text_eq}
use aipms.Policy.Engine.{PolicyRow, cost_center_prefix}
use aipms.Policy.Config.{StoredPolicy, policy_scope, global_scope, validate_policy_config}

-- `POLICY_ORDER`: by version, then by time, then by id, each the greatest first.
unfoldable pub precedes : StoredPolicy → StoredPolicy → Bool
precedes a b =
    ltb b.version a.version
    || a.version == b.version
      && (ltb b.created_at a.created_at || a.created_at == b.created_at && leb b.id a.id)

unfoldable pub insert_policy : StoredPolicy → List StoredPolicy → List StoredPolicy
insert_policy p [] = p ∷ []
insert_policy p (q ∷ qs) = if precedes p q then p ∷ q ∷ qs else q ∷ insert_policy p qs

unfoldable pub sort_policies : List StoredPolicy → List StoredPolicy
sort_policies [] = []
sort_policies (p ∷ ps) = insert_policy p (sort_policies ps)

-- `groups.get(key)`: the rows of a scope, in order. A row whose scope is refused throws.
unfoldable pub group : Text → List StoredPolicy → Result (List StoredPolicy)
group key [] = ok []
group key (p ∷ ps) = do
  scope ← policy_scope p.config
  rest ← group key ps
  ok (if text_eq scope key then p ∷ rest else rest)

-- A context with no cost center has only the global policies.
unfoldable pub candidates : Text → List StoredPolicy → Result (List StoredPolicy)
candidates [] rows = group global_scope rows
candidates (c ∷ cost_center) rows = do
  globals ← group global_scope rows
  scoped ← group (cost_center_prefix ++ c ∷ cost_center) rows
  ok (elim scoped [ [] ↦ globals | p ∷ ps ↦ p ∷ ps ])

abbrev pub is_rival : StoredPolicy → StoredPolicy → Bool
is_rival head row = not (row.id == head.id) && row.version == head.version

-- The head of the candidates, unless its version is not positive or another row has it too.
unfoldable pub effective_head : List StoredPolicy → Result (Option PolicyRow)
effective_head [] = ok none
effective_head (head ∷ rows) = do
  throw_if (ltb head.version 1 || any (is_rival head) (head ∷ rows))
      (Error.conflict "Ambiguous policy head; publish a reviewed replacement revision")
  config ← validate_policy_config head.config
  ok (some (record { name = head.name; version = head.version; config = config }))

unfoldable pub resolve_effective_policy : Text → List StoredPolicy → Result (Option PolicyRow)
resolve_effective_policy cost_center policies = do
  rows ← candidates cost_center (sort_policies (filter (λ (p : StoredPolicy). p.enabled) policies))
  effective_head rows
