-- ===== src/Policy/Resolver/Laws.antt =====
-- Which policy is in force.
use aipms.Prelude.{
  ◌≡◌, ◌≢◌, ◌≤◌, ◌<◌, Bool, true, false, some, List, [], ◌∷◌, ◌++◌, ok, inl, inr, arith, subst,
  Result-cases, Bool-cases, All, All-imp, any, filter,
}
use aipms.Prelude.Rows.{All-any-false}
use aipms.Prelude.Text.{Text, text_eq}
use aipms.Policy.Engine.{PolicyRow, cost_center_prefix}
use aipms.Policy.Config.{StoredPolicy, policy_scope, global_scope, validate_policy_config}
use aipms.Policy.Resolver.{
  precedes, insert_policy, sort_policies, group, candidates, is_rival, effective_head,
  resolve_effective_policy,
}

-- No later row has a greater version.
abbrev IsOrdered : List StoredPolicy → Type 0
IsOrdered [] = Unit
IsOrdered (p ∷ ps) = All (λ (q : StoredPolicy). q.version ≤ p.version) ps × IsOrdered ps

insert_policy-All :
    (P : StoredPolicy → Type 0) (p : StoredPolicy) (ps : List StoredPolicy)
    → P p
    → All P ps
    → All P (insert_policy p ps)
unfolding insert_policy
insert_policy-All P p [] h hs = (h, tt)
insert_policy-All P p (q ∷ qs) h hs = elim (Bool-cases (precedes p q)) [
  | inl first ↦ rw first (h, hs)
  | inr later ↦ rw later (hs.0, insert_policy-All P p qs h hs.1)
]

precedes-version :
    (p q : StoredPolicy)
    → ((precedes p q ≡ true) → q.version ≤ p.version)
      × ((precedes p q ≡ false) → p.version ≤ q.version)
unfolding precedes
precedes-version p q = (λ h. ground arith, λ h. ground arith)

insert_policy-IsOrdered :
    (p : StoredPolicy) (ps : List StoredPolicy) → IsOrdered ps → IsOrdered (insert_policy p ps)
unfolding insert_policy
insert_policy-IsOrdered p [] o = (tt, tt)
insert_policy-IsOrdered p (q ∷ qs) o = elim (Bool-cases (precedes p q)) [
  | inl first ↦
      let le = (precedes-version p q).0 first in
      rw first ((le, All-imp (λ (x : StoredPolicy) k. omega (arith, k, le)) qs o.0), o)
  | inr later ↦ rw later (
    insert_policy-All (λ x. x.version ≤ q.version) p qs ((precedes-version p q).1 later) o.0,
    insert_policy-IsOrdered p qs o.1,
  )
]

sort_policies-IsOrdered : (ps : List StoredPolicy) → IsOrdered (sort_policies ps)
unfolding sort_policies
sort_policies-IsOrdered [] = tt
sort_policies-IsOrdered (p ∷ ps) =
    insert_policy-IsOrdered p (sort_policies ps) (sort_policies-IsOrdered ps)

sort_policies-All :
    (P : StoredPolicy → Type 0) (ps : List StoredPolicy) → All P ps → All P (sort_policies ps)
unfolding sort_policies
sort_policies-All P [] h = tt
sort_policies-All P (p ∷ ps) h =
    insert_policy-All P p (sort_policies ps) h.0 (sort_policies-All P ps h.1)

filter-All :
    (p : StoredPolicy → Bool) (ps : List StoredPolicy) → All (λ x. p x ≡ true) (filter p ps)
filter-All p [] = tt
filter-All p (x ∷ xs) = elim (Bool-cases (p x)) [
  | inl e ↦ rw e (e, filter-All p xs)
  | inr e ↦ rw e (filter-All p xs)
]

-- The rows of a scope keep what holds of all rows, and their order.
group-keeps :
    (P : StoredPolicy → Type 0) (key : Text) (ps gs : List StoredPolicy)
    → group key ps ≡ ok gs
    → (All P ps → All P gs) × (IsOrdered ps → IsOrdered gs)
unfolding group
group-keeps P key [] gs h =
    let same : [] ≡ gs = ground arith in (λ _. subst (All P) same tt, λ _. subst IsOrdered same tt)
group-keeps P key (p ∷ ps) gs h = elim (Result-cases (policy_scope p.config)) [
  | inl (e, failed) ↦ absurd (ground arith)
  | inr (scope, scoped) ↦ elim (Result-cases (group key ps)) [
    | inl (e, failed) ↦ absurd (ground arith)
    | inr (rest, grouped) ↦
        let keeps = group-keeps P key ps rest grouped in
        elim (Bool-cases (text_eq scope key)) [
          | inl hit ↦
              let same : p ∷ rest ≡ gs = ground arith in
              (
                λ hs. subst (All P) same (hs.0, keeps.0 hs.1),
                λ o. subst IsOrdered same (
                  (group-keeps (λ x. x.version ≤ p.version) key ps rest grouped).0 o.0,
                  keeps.1 o.1,
                ),
              )
          | inr miss ↦
              let same : rest ≡ gs = ground arith in
              (λ hs. subst (All P) same (keeps.0 hs.1), λ o. subst IsOrdered same (keeps.1 o.1))
        ]
  ]
]

candidates-keeps :
    (P : StoredPolicy → Type 0) (cost_center : Text) (ps gs : List StoredPolicy)
    → candidates cost_center ps ≡ ok gs
    → (All P ps → All P gs) × (IsOrdered ps → IsOrdered gs)
unfolding candidates
candidates-keeps P [] ps gs h = group-keeps P global_scope ps gs h
candidates-keeps P (c ∷ cs) ps gs h = elim (Result-cases (group global_scope ps)) [
  | inl (e, failed) ↦ absurd (ground arith)
  | inr (globals, all_scopes) ↦ elim (Result-cases (group (cost_center_prefix ++ c ∷ cs) ps)) [
    | inl (e, failed) ↦ absurd (ground arith)
    | inr ([], none_scoped) ↦
        let same : globals ≡ gs = ground arith in
        group-keeps P global_scope ps gs (subst (λ x. group global_scope ps ≡ ok x) same all_scopes)
    | inr (q ∷ qs, scoped) ↦
        let same : q ∷ qs ≡ gs = ground arith in
        group-keeps P (cost_center_prefix ++ c ∷ cs) ps gs
          (subst (λ x. group (cost_center_prefix ++ c ∷ cs) ps ≡ ok x) same scoped)
  ]
]

-- The head of the candidates, with what it was tested for.
abbrev pub IsInForce : Text → List StoredPolicy → PolicyRow → Type 0
IsInForce cost_center policies row =
    (head : StoredPolicy) × (rows : List StoredPolicy) × (candidates cost_center
        (sort_policies (filter (λ (p : StoredPolicy). p.enabled) policies))
      ≡ ok (head ∷ rows))
    × (head.enabled ≡ true)
    × (1 ≤ head.version)
    × All (λ (p : StoredPolicy). p.id ≢ head.id → p.version < head.version) rows
    × (row.name ≡ head.name)
    × (row.version ≡ head.version)
    × (validate_policy_config head.config ≡ ok row.config)

-- A policy that is in force is the head of the candidates of the cost center among the enabled
-- policies in their order: it is enabled, has a positive version that is greater than that of
-- every other candidate, and its configuration is valid.
pub resolve_effective_policy_lem :
    (cost_center : Text) (policies : List StoredPolicy) (row : PolicyRow)
    → resolve_effective_policy cost_center policies ≡ ok (some row)
    → IsInForce cost_center policies row
unfolding resolve_effective_policy effective_head
resolve_effective_policy_lem cost_center policies row h =
    let enabled = filter (λ (p : StoredPolicy). p.enabled) policies in
    elim (Result-cases (candidates cost_center (sort_policies enabled))) [
      | inl (e, failed) ↦ absurd (ground arith)
      | inr ([], nothing) ↦ absurd (ground arith)
      | inr (head ∷ rows, found) ↦
          let keeps =
            candidates-keeps (λ (p : StoredPolicy). p.enabled ≡ true) cost_center
              (sort_policies enabled) (head ∷ rows) found in
          let on = keeps.0 (
            sort_policies-All (λ (p : StoredPolicy). p.enabled ≡ true) enabled
              (filter-All (λ (p : StoredPolicy). p.enabled) policies)) in
          let ordered = keeps.1 (sort_policies-IsOrdered enabled) in
          let alone : any (is_rival head) (head ∷ rows) ≡ false = ground arith in
          elim (Result-cases (validate_policy_config head.config)) [
            | inl (e, failed) ↦ absurd (ground arith)
            | inr (config, valid) ↦ (
              head,
              rows,
              found,
              on.0,
              ground arith,
              unrivalled head rows (All-any-false (is_rival head) (head ∷ rows) alone).1 ordered.0,
              ground arith,
              ground arith,
              ground arith,
            )
          ]
    ]
  where
    unrivalled :
        (head : StoredPolicy) (rows : List StoredPolicy)
        → All (λ p. is_rival head p ≡ false) rows
        → All (λ (p : StoredPolicy). p.version ≤ head.version) rows
        → All (λ (p : StoredPolicy). p.id ≢ head.id → p.version < head.version) rows
    unrivalled head [] a b = tt
    unrivalled head (p ∷ ps) a b =
        let x = a.0 in let y = b.0 in (λ ne. ground arith, unrivalled head ps a.1 b.1)
