-- ===== src/Approval/Budget/Laws.antt =====
-- What a release takes from a budget.
use aipms.Prelude.{
  ℕ, ◌≡◌, refl, true, Option, none, some, inl, inr, arith, Option-cases, ok, Result-cases,
  update_where, ◌==◌, find?-some-holds, ◌∙◌,
}
use aipms.Prelude.Int.{ℤ, pos, ◌≤ℤ◌, int_laws}
use aipms.Prelude.Text.{Text}
use aipms.Prelude.Rows.{find?-update_where}
use aipms.Money.{assert_database_int, normalize_currency_code}
use aipms.Database.{Db, Budget, Requisition}
use aipms.Approval.Budget.{
  find_requisition, find_budget, release, release_from, release_committed_budget,
}

-- The budget of the requisition has given the amount back.
pub record Released (requisition_id : ℕ) (amount : ℤ) (db db' : Db) : Type 0 where
  pub requisition : Requisition
  pub budget_id : ℕ
  pub budget : Budget
  pub found : find_requisition requisition_id db ≡ some requisition
  pub has_budget : requisition.budget_id ≡ some budget_id
  pub before : find_budget budget_id db ≡ some budget
  pub committed : amount ≤ℤ budget.committed_minor
  pub after : find_budget budget_id db' ≡ some (release amount budget)

release_from-written :
    (budget_id : ℕ) (amount : ℤ) (currency : Text) (db db' : Db) (done : Unit {0})
    → release_from budget_id amount currency db ≡ ok (done, db')
    → (budget : Budget) × (find_budget budget_id db ≡ some budget)
      × (amount ≤ℤ budget.committed_minor)
      × (find_budget budget_id db' ≡ some (release amount budget))
unfolding release_from
release_from-written budget_id amount currency db db' done h =
    elim (Option-cases (find_budget budget_id db)) [
      | inl missing ↦ absurd (ground arith)
      | inr (budget, found) ↦ elim (Result-cases (normalize_currency_code budget.currency_code)) [
        | inl (e, thrown) ↦ absurd (ground arith)
        | inr (budget_code, known) ↦ elim (Result-cases (normalize_currency_code currency)) [
          | inl (e, thrown) ↦ absurd (ground arith)
          | inr (order_code, normal) ↦
              let key : (budget.id == budget_id) ≡ true =
                find?-some-holds (λ (b : Budget). b.id == budget_id) db.budgets budget found in
              let after =
                find?-update_where (λ (b : Budget). b.id == budget_id)
                  (λ (b : Budget). b.id == budget_id) (release amount) db.budgets budget (λ b. refl)
                  found in
              let wrote : db'.budgets
                  ≡ update_where (λ (b : Budget). b.id == budget_id) (release amount) db.budgets =
                ground arith in
              (budget, found, ground arith, rw wrote (after ∙ rw key refl))
        ]
      ]
    ]

-- A release goes through only where the requisition has a budget that has committed the amount; the budget that
-- is found afterwards has the amount less committed.
pub release_committed_budget_lem :
    (requisition_id : ℕ) (amount : ℤ) (currency : Text) (db db' : Db) (done : Unit {0})
    → release_committed_budget (some requisition_id) amount currency db ≡ ok (done, db')
    → Released requisition_id amount db db'
unfolding release_committed_budget
release_committed_budget_lem requisition_id amount currency db db' done h =
    elim (Result-cases (assert_database_int amount)) [
      | inl (e, thrown) ↦ absurd (ground arith)
      | inr (checked, in_range) ↦ elim (Option-cases (find_requisition requisition_id db)) [
        | inl missing ↦ absurd (ground arith)
        | inr (requisition, found) ↦ elim (Option-cases requisition.budget_id) [
          | inl none_there ↦ absurd (ground arith)
          | inr (budget_id, has_budget) ↦
              let (budget, before, committed, after) =
                release_from-written budget_id amount currency db db' done (ground arith) in
              record {
                requisition = requisition;
                budget_id = budget_id;
                budget = budget;
                found = found;
                has_budget = has_budget;
                before = before;
                committed = committed;
                after = after;
              }
        ]
      ]
    ]

-- Then the commitment is not negative.
pub Released-nonneg :
    (requisition_id : ℕ) (amount : ℤ) (db db' : Db) (r : Released requisition_id amount db db')
    → pos 0 ≤ℤ (release amount r.budget).committed_minor
Released-nonneg requisition_id amount db db' r =
    let enough = r.committed in omega (int_laws, enough)

pub release_committed_budget-others :
    (requisition_id : Option ℕ) (amount : ℤ) (currency : Text) (db db' : Db) (done : Unit {0})
    → release_committed_budget requisition_id amount currency db ≡ ok (done, db')
    → (db'.approvals ≡ db.approvals)
      × (db'.purchase_orders ≡ db.purchase_orders)
      × (db'.receipts ≡ db.receipts)
unfolding release_committed_budget release_from
release_committed_budget-others none amount currency db db' done h =
    (ground arith, ground arith, ground arith)
release_committed_budget-others (some id) amount currency db db' done h =
    (ground arith, ground arith, ground arith)
