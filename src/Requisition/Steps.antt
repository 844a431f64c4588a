-- ===== src/Requisition/Steps.antt =====
-- What a submission reads, and what it writes.
use mathlib.Core.Option.{some-injective}
use aipms.Prelude.{
  ℕ, ◌≡◌, refl, Bool, Option, none, some, [], ◌∷◌, ◌++◌, map, ok, inl, inr, arith, Option-cases,
  Result-cases, update_where, subst, sym, ap, ◌∙◌, ◌≤◌, ◌==◌, count, find?, find?-some-holds,
}
use aipms.Prelude.Int.{ℤ}
use aipms.Prelude.Text.{Text}
use aipms.Prelude.Rows.{find?-update_where}
use aipms.Prelude.Rows.Keys.{find?-of_stronger}
use aipms.Money.{assert_single_currency}
use aipms.Policy.Engine.{PolicyRow, GateDecision, evaluate_threshold_gate}
use aipms.Policy.Resolver.{resolve_effective_policy}
use aipms.Database.{Db, Requisition, OrderLine, Budget, ReqStatus}
use aipms.Requisition.{
  submit, find_own, decide_submission, record_decision, remaining_budget, find_budget,
  assert_budget_currency, gate_context, decision_row, moved, next_status, submittable, remaining,
  decision_event,
}

abbrev pub has_id : ℕ → Requisition → Bool
has_id id r = r.id == id

-- What is left of the budget that the requisition names, if it names one.
abbrev pub IsLeft : Db → Option ℕ → Option ℤ → Type 0
IsLeft db none left = left ≡ none
IsLeft db (some id) left =
    (budget : Budget) × (find_budget id db ≡ some budget) × (left ≡ some (remaining budget))

remaining_budget-IsLeft :
    (budget : Option ℕ) (currency : Text) (db db' : Db) (left : Option ℤ)
    → remaining_budget budget currency db ≡ ok (left, db')
    → (db ≡ db') × IsLeft db budget left
unfolding remaining_budget assert_budget_currency
remaining_budget-IsLeft none currency db db' left h = (ground arith, ground arith)
remaining_budget-IsLeft (some id) currency db db' left h = elim (Option-cases (find_budget id db)) [
  | inl missing ↦ absurd (ground arith)
  | inr (budget, found) ↦ (ground arith, (budget, found, ground arith))
]

-- What the decision of a submission has read.
abbrev pub Decided : Db → Requisition → GateDecision → Type 0
Decided db r d =
    (policy : Option PolicyRow) × (left : Option ℤ) × (resolve_effective_policy r.cost_center
        db.policies
      ≡ ok policy)
    × IsLeft db r.budget_id left
    × (d ≡ evaluate_threshold_gate policy (gate_context r left))

decide_submission-Decided :
    (r : Requisition) (db db' : Db) (d : GateDecision)
    → decide_submission r db ≡ ok (d, db')
    → (db ≡ db') × Decided db r d
unfolding decide_submission
decide_submission-Decided r db db' d h =
    elim (Result-cases
      (assert_single_currency (map (λ (l : OrderLine). l.currency_code) r.lines))) [
        | inl (e, failed) ↦ absurd (ground arith)
        | inr (currency, single) ↦
            elim (Result-cases (resolve_effective_policy r.cost_center db.policies)) [
              | inl (e, failed) ↦ absurd (ground arith)
              | inr (policy, resolved) ↦
                  elim (Result-cases (remaining_budget r.budget_id currency db)) [
                    | inl (e, failed) ↦ absurd (ground arith)
                    | inr ((left, after), done) ↦
                        let read =
                          remaining_budget-IsLeft r.budget_id currency db after left done in
                        (ground (arith, read.0), (policy, left, resolved, read.1, ground arith))
                  ]
            ]
      ]

-- What a recorded decision writes.
abbrev pub Written : ℕ → ℕ → Requisition → GateDecision → Db → Db → Type 0
Written id now r d db db' =
    (db'.requisitions
      ≡ update_where (submittable id) (moved (next_status d.outcome) now) db.requisitions)
    × (db'.approvals ≡ db.approvals ++ decision_row db.next_id r d ∷ [])
    × (db'.events
        ≡ db.events ++ record { event_type = decision_event d.outcome; entity_id = id } ∷ [])

find_own-same :
    (id : ℕ) (by : Option ℕ) (db db' : Db)
    → db'.requisitions ≡ db.requisitions
    → find_own id by db' ≡ find_own id by db
unfolding find_own
find_own-same id none db db' same = rw same refl
find_own-same id (some user) db db' same = rw same refl

record_decision-Written :
    (id now : ℕ) (r : Requisition) (d : GateDecision) (db db' : Db) (after : Requisition)
    → record_decision id now r d db ≡ ok (after, db')
    → Written id now r d db db' × (find_own id none db' ≡ some after)
unfolding record_decision
record_decision-Written id now r d db db' after h =
    let updated : Db = record db {
      requisitions =
          update_where (submittable id) (moved (next_status d.outcome) now) db.requisitions;
    } in
    elim (Option-cases (find_own id none updated)) [
      | inl missing ↦ absurd (ground arith)
      | inr (reread, found) ↦
          let same : db'.requisitions ≡ updated.requisitions = ground arith in
          let given : reread ≡ after = ground arith in
          (
            (ground arith, ground arith, ground arith),
            find_own-same id none updated db' same ∙ found ∙ ap some given,
          )
    ]

-- A submission that goes through found a draft that the requester may submit.
pub submit_lem :
    (id : ℕ) (by : Option ℕ) (now : ℕ) (db db' : Db) (after : Requisition) (d : GateDecision)
    → submit id by now db ≡ ok ((after, d), db')
    → (r : Requisition) × (find_own id by db ≡ some r)
      × (r.status ≡ ReqStatus.draft)
      × Decided db r d
      × Written id now r d db db'
      × (find_own id none db' ≡ some after)
unfolding submit
submit_lem id by now db db' after d h = elim (Option-cases (find_own id by db)) [
  | inl missing ↦ absurd (ground arith)
  | inr (r, found) ↦ elim (Result-cases (decide_submission r db)) [
    | inl (e, failed) ↦ absurd (ground arith)
    | inr ((decision, read_db), done) ↦
        let read = decide_submission-Decided r db read_db decision done in
        elim (Result-cases (record_decision id now r decision read_db)) [
          | inl (e, failed) ↦ absurd (ground arith)
          | inr ((moved_row, wrote_db), wrote) ↦
              let same : decision ≡ d = ground arith in
              let last : wrote_db ≡ db' = ground arith in
              let wrote' : record_decision id now r d db ≡ ok (moved_row, db') =
                rw (read.0, ← same, ← last) wrote in
              let row : moved_row ≡ after = ground arith in
              let (written, there) = record_decision-Written id now r d db db' moved_row wrote' in
              (
                r,
                found,
                ground arith,
                subst (λ x. Decided db r x) same read.1,
                written,
                there ∙ ap some row,
              )
        ]
  ]
]

-- Where ids are keys, the requisition that the requester may submit is the one that is found.
pub find_own-any :
    (id : ℕ) (by : Option ℕ) (db : Db) (r : Requisition)
    → count (has_id id) db.requisitions ≤ 1
    → find_own id by db ≡ some r
    → find? (has_id id) db.requisitions ≡ some r
unfolding find_own
find_own-any id none db r one found = found
find_own-any id (some user) db r one found =
    find?-of_stronger (has_id id) (λ (q : Requisition). q.requested_by == user) db.requisitions r
      one found

moved-status :
    (status : ReqStatus) (now : ℕ) (r : Requisition) → (moved status now r).status ≡ status
moved-status status now r = ground arith

-- The requisition that a submission gives is the draft, moved to the status of the decision.
pub submit-moved :
    (id now : ℕ) (by : Option ℕ) (db db' : Db) (after r : Requisition) (d : GateDecision)
    → count (has_id id) db.requisitions ≤ 1
    → find_own id by db ≡ some r
    → r.status ≡ ReqStatus.draft
    → Written id now r d db db'
    → find_own id none db' ≡ some after
    → (after ≡ moved (next_status d.outcome) now r) × (after.status ≡ next_status d.outcome)
unfolding find_own
submit-moved id now by db db' after r d one found draft written there =
    let first = find_own-any id by db r one found in
    let key = find?-some-holds (has_id id) db.requisitions r first in
    let stays =
      find?-update_where (has_id id) (submittable id) (moved (next_status d.outcome) now)
        db.requisitions r (λ q. ground arith) first
      ∙ rw (key, draft) refl in
    let last : find? (has_id id) db'.requisitions ≡ some (moved (next_status d.outcome) now r) =
      subst (λ rows. find? (has_id id) rows ≡ some (moved (next_status d.outcome) now r))
        (sym written.0) stays in
    let same : after ≡ moved (next_status d.outcome) now r =
      some-injective after (moved (next_status d.outcome) now r) (sym there ∙ last) in
    (same, ap (λ (q : Requisition). q.status) same ∙ moved-status (next_status d.outcome) now r)
