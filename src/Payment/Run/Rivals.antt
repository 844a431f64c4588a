-- ===== src/Payment/Run/Rivals.antt =====
-- Rival commands on one payment run: of two that passed their tests, only one can write.
use aipms.Prelude.{
  ℕ, ◌≤◌, ◌≡◌, refl, Bool, false, not, ◌&&◌, arith, count, update_where, ◌==◌, Result, ok, err,
}
use aipms.Prelude.Text.{Text}
use aipms.Prelude.Rows.{count-after_update}
use aipms.Database.{Db, PaymentRun, is_run_draft, is_run_approved}
use aipms.Payment.Run.{
  approvable, set_approved, approve_commit, executable, set_executed, execute_commit, is_open,
  voidable, set_voided, void_commit,
}

abbrev pub IsErr : {A : Type 0} → Result A → Type 0
IsErr (ok _) = ⊥
IsErr (err _) = Unit

abbrev pub has_id : ℕ → PaymentRun → Bool
has_id id r = r.id == id

-- A commit has changed exactly one run.
abbrev Wrote : (PaymentRun → Bool) → (PaymentRun → PaymentRun) → Db → Db → Type 0
Wrote test f db db' =
    (count test db.payment_runs ≡ 1) × (db'.payment_runs ≡ update_where test f db.payment_runs)

approve_commit-Wrote :
    (id a : ℕ) (db db' : Db) (r : PaymentRun)
    → approve_commit id a db ≡ ok (r, db')
    → Wrote (approvable id a) (set_approved a) db db'
unfolding approve_commit
approve_commit-Wrote id a db db' r h = (ground arith, ground arith)

execute_commit-Wrote :
    (id a : ℕ) (db db' : Db) (r : PaymentRun)
    → execute_commit id a db ≡ ok (r, db')
    → Wrote (executable id) (set_executed a) db db'
unfolding execute_commit
execute_commit-Wrote id a db db' r h = (ground arith, ground arith)

void_commit-Wrote :
    (id a : ℕ) (reason : Text) (db db' : Db) (r : PaymentRun)
    → void_commit id a reason db ≡ ok (r, db')
    → Wrote (voidable id) (set_voided a reason) db db'
unfolding void_commit
void_commit-Wrote id a reason db db' r h = (ground arith, ground arith)

approve_commit-IsErr :
    (id b : ℕ) (db : Db)
    → count (approvable id b) db.payment_runs ≡ 0
    → IsErr (approve_commit id b db)
unfolding approve_commit
approve_commit-IsErr id b db none_left = rw none_left tt

execute_commit-IsErr :
    (id b : ℕ) (db : Db)
    → count (executable id) db.payment_runs ≡ 0
    → IsErr (execute_commit id b db)
unfolding execute_commit
execute_commit-IsErr id b db none_left = rw none_left tt

void_commit-IsErr :
    (id b : ℕ) (reason : Text) (db : Db)
    → count (voidable id) db.payment_runs ≡ 0
    → IsErr (void_commit id b reason db)
unfolding void_commit
void_commit-IsErr id b reason db none_left = rw none_left tt

abbrev may_approve : ℕ → PaymentRun → Bool
may_approve b r = is_run_draft r.status && not (r.created_by == b)

abbrev may_execute : PaymentRun → Bool
may_execute r = is_run_approved r.status

abbrev may_void : PaymentRun → Bool
may_void r = is_open r.status

module _ (id : ℕ) (db db' : Db) (one : count (has_id id) db.payment_runs ≤ 1) where
  -- After a write that makes `q` fail, no run of the id passes `q`.
  none_after :
      (p q : PaymentRun → Bool) (f : PaymentRun → PaymentRun)
      → ((r : PaymentRun) → has_id id (f r) ≡ has_id id r)
      → ((r : PaymentRun) → q (f r) ≡ false)
      → Wrote (λ r. has_id id r && p r) f db db'
      → count (λ r. has_id id r && q r) db'.payment_runs ≡ 0
  none_after p q f same fails (hit, written) =
      rw written (count-after_update (has_id id) p q f db.payment_runs same fails one hit)

-- Where ids of runs are keys, of two commands that passed their tests on the same run, the one
-- that writes second throws: after an approval a second approval; after an execution a second
-- execution and a void; after a void an approval, an execution and a second void.
pub rivals_throw :
    (id a b : ℕ) (reason : Text) (db db' : Db) (r : PaymentRun)
    → count (has_id id) db.payment_runs ≤ 1
    → ((approve_commit id a db ≡ ok (r, db')) → IsErr (approve_commit id b db'))
      × ((execute_commit id a db ≡ ok (r, db'))
          → IsErr (execute_commit id b db') × IsErr (void_commit id b reason db'))
      × ((void_commit id a reason db ≡ ok (r, db'))
          → IsErr (approve_commit id b db')
            × IsErr (execute_commit id b db')
            × IsErr (void_commit id b reason db'))
rivals_throw id a b reason db db' r one = (
  λ h. approve_commit-IsErr id b db' (
      none_after id db db' one (may_approve a) (may_approve b) (set_approved a) (λ r'. refl)
        (λ r'. refl) (approve_commit-Wrote id a db db' r h)),
  λ h.
      let w = execute_commit-Wrote id a db db' r h in
      (
        execute_commit-IsErr id b db' (
            none_after id db db' one may_execute may_execute (set_executed a) (λ r'. refl)
              (λ r'. refl) w),
        void_commit-IsErr id b reason db' (
            none_after id db db' one may_execute may_void (set_executed a) (λ r'. refl) (λ r'. refl)
              w),
      ),
  λ h.
      let w = void_commit-Wrote id a reason db db' r h in
      (
        approve_commit-IsErr id b db' (
            none_after id db db' one may_void (may_approve b) (set_voided a reason) (λ r'. refl)
              (λ r'. refl) w),
        execute_commit-IsErr id b db' (
            none_after id db db' one may_void may_execute (set_voided a reason) (λ r'. refl)
              (λ r'. refl) w),
        void_commit-IsErr id b reason db' (
            none_after id db db' one may_void may_void (set_voided a reason) (λ r'. refl)
              (λ r'. refl) w),
      ),
)
