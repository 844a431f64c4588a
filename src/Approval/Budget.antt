-- ===== src/Approval/Budget.antt =====
-- `releaseCommittedBudget` of apps/api/src/approval/approval.service.ts.
pub mod Laws
use aipms.Prelude.{
  ℕ, Bool, true, false, not, Option, none, some, List, Error, find?, update_where, ◌==◌,
}
use aipms.Prelude.Int.{ℤ, ◌-ℤ◌, ltb_ℤ}
use aipms.Prelude.Text.{Text, text_eq}
use aipms.Money.{assert_database_int, normalize_currency_code}
use aipms.Database.{
  Db, Budget, Requisition, Tx, ◌>>=◌, ◌>>◌, pure, lift, gets, modify, or_throw, throw_if,
}

abbrev pub find_requisition : ℕ → Db → Option Requisition
find_requisition id db = find? (λ (r : Requisition). r.id == id) db.requisitions

abbrev pub find_budget : ℕ → Db → Option Budget
find_budget id db = find? (λ (b : Budget). b.id == id) db.budgets

abbrev pub release : ℤ → Budget → Budget
release amount b = record b { committed_minor = b.committed_minor -ℤ amount }

-- The budget of the order's requisition gives back what the order had committed.
unfoldable pub release_from : ℕ → ℤ → Text → Tx (Unit {0})
release_from budget_id amount currency = do
  found ← gets (find_budget budget_id)
  budget ← or_throw found (Error.not_found "Purchase order budget not found")
  budget_code ← lift (normalize_currency_code budget.currency_code)
  order_code ← lift (normalize_currency_code currency)
  throw_if (not (text_eq budget_code order_code))
      (Error.conflict "Purchase order and budget currencies differ")
  throw_if (ltb_ℤ budget.committed_minor amount)
      (Error.conflict "Budget commitment is inconsistent")
  modify (λ db. record db {
    budgets = update_where (λ (b : Budget). b.id == budget_id) (release amount) db.budgets;
  })

unfoldable pub release_committed_budget : Option ℕ → ℤ → Text → Tx (Unit {0})
release_committed_budget none amount currency = do
  checked ← lift (assert_database_int amount)
  pure tt
release_committed_budget (some requisition_id) amount currency = do
  checked ← lift (assert_database_int amount)
  found ← gets (find_requisition requisition_id)
  r ← or_throw found (Error.not_found "Purchase order requisition not found")
  budget_id ← or_throw r.budget_id (Error.conflict "Purchase order requisition has no budget")
  release_from budget_id amount currency
