-- ===== src/Payment/Run/Tests.antt =====
-- The commands to a payment run on sample tables.
use aipms.Prelude.{◌≡◌, ◌≢◌, ◌⊎◌, refl, false, some, [], ◌∷◌, arith, ok, err, Error}
use aipms.Prelude.Text.{Text, trim, trim_start, is_space, units}
use aipms.Database.{Db, PaymentRun, PaymentRunStatus}
use aipms.Database.Samples.{run, with_runs}
use aipms.Payment.Beneficiary.{is_empty}
use aipms.Payment.Run.{
  find_run, approve, approve_commit, execute, execute_commit, void_run, void_commit, set_approved,
  set_executed, set_voided,
}
use aipms.Payment.Run.Lifecycle.{approve_lem, execute_lem, void_run_lem, IsErr}
use aipms.Payment.Run.Rivals.{rivals_throw}
use aipms.Payment.Run.Stale.{stale_void}

abbrev drafted : PaymentRun
drafted = run 40 PaymentRunStatus.draft

abbrev approved : PaymentRun
approved = run 40 PaymentRunStatus.approved

abbrev one_run : PaymentRun → Db
one_run r = with_runs (r ∷ [])

abbrev reason : Text
reason = units " duplicate "

approves :
    approve 40 2 (one_run drafted) ≡ ok (set_approved 2 drafted, one_run (set_approved 2 drafted))
unfolding approve
approves = refl

approve_lem_example :
    (before : PaymentRun) × (find_run 40 (one_run drafted) ≡ some before)
    × (before.status ≡ PaymentRunStatus.draft)
    × (before.created_by ≢ 2)
    × (set_approved 2 drafted ≡ set_approved 2 before)
    × (find_run 40 (one_run (set_approved 2 drafted)) ≡ some (set_approved 2 drafted))
approve_lem_example =
    approve_lem 40 2 (one_run drafted) (one_run (set_approved 2 drafted)) (set_approved 2 drafted)
      approves

executes :
    execute 40 1 (one_run approved)
    ≡ ok (set_executed 1 approved, one_run (set_executed 1 approved))
unfolding execute
executes = refl

execute_lem_example :
    (before : PaymentRun) × (find_run 40 (one_run approved) ≡ some before)
    × (before.status ≡ PaymentRunStatus.approved)
    × (set_executed 1 approved ≡ set_executed 1 before)
    × (find_run 40 (one_run (set_executed 1 approved)) ≡ some (set_executed 1 approved))
execute_lem_example =
    execute_lem 40 1 (one_run approved) (one_run (set_executed 1 approved))
      (set_executed 1 approved) executes

-- The void has read the draft, and writes after the approval.
voids :
    void_run (one_run drafted) 40 2 reason (one_run approved)
    ≡ ok (set_voided 2 reason approved, one_run (set_voided 2 reason approved))
unfolding void_run trim trim_start is_space
voids = refl

void_run_lem_example :
    (read : PaymentRun) × (before : PaymentRun) × (find_run 40 (one_run drafted) ≡ some read)
    × (find_run 40 (one_run approved) ≡ some before)
    × (is_empty (trim reason) ≡ false)
    × ((read.status ≡ PaymentRunStatus.draft)
        ⊎ ((read.status ≡ PaymentRunStatus.approved) × (read.created_by ≢ 2)))
    × ((before.status ≡ PaymentRunStatus.draft) ⊎ (before.status ≡ PaymentRunStatus.approved))
    × (set_voided 2 reason approved ≡ set_voided 2 reason before)
    × (find_run 40 (one_run (set_voided 2 reason approved)) ≡ some (set_voided 2 reason approved))
void_run_lem_example =
    void_run_lem (one_run drafted) (one_run approved) (one_run (set_voided 2 reason approved)) 40 2
      reason (set_voided 2 reason approved) (omega arith) voids

reason_given : is_empty (trim reason) ≡ false
unfolding trim trim_start is_space
reason_given = refl

stale_void_example :
    let approved' = set_approved 2 drafted in
    let db' = one_run approved' in
    (approved'.status ≡ PaymentRunStatus.approved)
    × (approved'.approved_by ≡ some 2)
    × (void_run db' 40 1 reason db'
        ≡ err (Error.bad_request "The payment-run maker cannot override an approved run"))
    × (db'' : Db) × (void_run (one_run drafted) 40 1 reason db'
        ≡ ok (set_voided 1 reason approved', db''))
    × (find_run 40 db'' ≡ some (set_voided 1 reason approved'))
stale_void_example =
    stale_void 40 1 2 reason (one_run drafted) (one_run (set_approved 2 drafted))
      (set_approved 2 drafted) (omega arith) reason_given approves refl

-- Two approvers and a voider of a draft.
rivals_throw_example :
    let db = one_run drafted in
    let db' = one_run (set_approved 2 drafted) in
    let r = set_approved 2 drafted in
    ((approve_commit 40 2 db ≡ ok (r, db')) → IsErr (approve_commit 40 3 db'))
    × ((execute_commit 40 2 db ≡ ok (r, db'))
        → IsErr (execute_commit 40 3 db') × IsErr (void_commit 40 3 reason db'))
    × ((void_commit 40 2 reason db ≡ ok (r, db'))
        → IsErr (approve_commit 40 3 db')
          × IsErr (execute_commit 40 3 db')
          × IsErr (void_commit 40 3 reason db'))
rivals_throw_example =
    rivals_throw 40 2 3 reason (one_run drafted) (one_run (set_approved 2 drafted))
      (set_approved 2 drafted) (omega arith)
