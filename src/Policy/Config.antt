-- ===== src/Policy/Config.antt =====
-- Stored policies and the check of a threshold policy's configuration,
-- apps/api/src/policy/policy-config.ts. The schema that the code declares with its validation
-- library is written out.
use aipms.Prelude.{
  ℕ, Bool, true, false, not, ◌&&◌, ◌||◌, Option, none, some, List, [], ◌∷◌, ◌++◌, map, Result, ok,
  err, Error, ◌>>=◌, ◌>>◌, throw_if, length, all, or_else, leb, if◌then◌else◌,
}
use aipms.Prelude.Int.{ℤ, pos, leb_ℤ}
use aipms.Prelude.Text.{Text, text_eq, trim, units}
use aipms.Money.{database_int_max}
use aipms.Policy.Engine.{ThresholdPolicyConfig, strip, cost_center_prefix}

-- A field of a JSON object: missing, null, of another type than the schema's, or a value.
pub data Field (A : Type 0) : Type 0 where
  absent null invalid : Field A
  given : A → Field A

-- The keys of a stored configuration; `has_more` says that it has some that the schema does not know.
pub record ConfigKeys : Type 0 where
  pub scope : Field Text
  pub auto_approve_up_to : Field ℤ
  pub approval_chain : Field (List Text)
  pub budget_required : Field Bool
  pub has_more : Bool

-- A stored configuration, which is any JSON value.
pub data RawConfig : Type 0 where
  no_object : RawConfig
  object : ConfigKeys → RawConfig

pub record StoredPolicy : Type 0 where
  pub id : ℕ
  pub name : Text
  pub enabled : Bool
  pub version : ℕ
  pub created_at : ℕ
  pub config : RawConfig

abbrev pub global_scope : Text
global_scope = units "*"

abbrev pub is_blank : Text → Bool
is_blank [] = true
is_blank (c ∷ s) = false

-- `z.string().trim().min(1).max(120)` of a text that is trimmed.
abbrev pub fits : Text → Bool
fits s = not (is_blank s) && leb (length s) 120

-- The text behind `costCenter:`, or the whole text.
abbrev bare : Text → Text
bare value = or_else (strip cost_center_prefix value) value

unfoldable pub canonical_scope : Text → Result Text
canonical_scope raw =
    if is_blank raw || text_eq raw global_scope
    then ok global_scope
    else if not (fits (trim raw))
    then err (Error.bad_request "Invalid policy scope")
    else if is_blank (trim (bare (trim raw)))
    then err (Error.bad_request "Policy scope needs a cost center")
    else ok (cost_center_prefix ++ bare (trim raw))

abbrev scope_of_field : Field Text → Result Text
scope_of_field Field.absent = ok global_scope
scope_of_field Field.null = ok global_scope
scope_of_field Field.invalid = err (Error.bad_request "Invalid policy scope")
scope_of_field (Field.given raw) = canonical_scope raw

unfoldable pub policy_scope : RawConfig → Result Text
policy_scope RawConfig.no_object = err (Error.bad_request "Policy config must be an object")
policy_scope (RawConfig.object keys) = scope_of_field keys.scope

abbrev schema_error : Error
schema_error = Error.bad_request "Invalid threshold policy"

-- `.optional()` of a schema that transforms and tests a value.
abbrev optional : {A B : Type 0} → (A → B) → (B → Bool) → Field A → Result (Option B)
optional f test Field.absent = ok none
optional f test Field.null = err schema_error
optional f test Field.invalid = err schema_error
optional f test (Field.given a) = if test (f a) then ok (some (f a)) else err schema_error

abbrev in_range : ℤ → Bool
in_range n = leb_ℤ (pos 0) n && leb_ℤ n (pos database_int_max)

abbrev chain_fits : List Text → Bool
chain_fits chain = all fits chain && leb (length chain) 50

-- The scope is kept in its canonical form, and left out where it is global.
abbrev stored_scope : Option Text → Result (Option Text)
stored_scope none = ok none
stored_scope (some s) = do
  canonical ← canonical_scope s
  ok (if text_eq canonical global_scope then none else some canonical)

unfoldable pub validate_policy_config : RawConfig → Result ThresholdPolicyConfig
validate_policy_config RawConfig.no_object = err schema_error
validate_policy_config (RawConfig.object raw) = do
  throw_if raw.has_more schema_error
  scope ← optional trim fits raw.scope
  limit ← optional (λ n. n) in_range raw.auto_approve_up_to
  chain ← optional (map trim) chain_fits raw.approval_chain
  required ← optional (λ b. b) (λ b. true) raw.budget_required
  canonical ← stored_scope scope
  ok (record {
    scope = canonical;
    auto_approve_up_to = limit;
    approval_chain = chain;
    budget_required = or_else required false;
  })
