-- ===== src/Payment/Machine/Refines.antt =====
-- Every command of the service is steps of the machine, for every run.
use aipms.Prelude.{
  ℕ, ◌≡◌, refl, sym, subst, ap, ◌∙◌, Bool, true, inl, inr, some, List, [], ◌∷◌, ◌++◌, arith,
  Bool-cases, ok, Result-cases, find?, count, update_where, ◌==◌, ==→eq, find?-some-holds,
}
use aipms.Prelude.Rows.{find?-update_where}
use aipms.Database.{Db, PaymentRun, PaymentRunStatus, is_executed}
use aipms.Payment.Create.Laws.{create_attempt-Planned}
use aipms.Payment.Create.{create, create_precheck, create_attempt, insert_run, unique}
use aipms.Payment.Settlement.{settle_paid_invoice, charge}
use aipms.Payment.Run.{
  Settlement, find_run, approve, execute, void_run, reconcile, settle, approvable, set_approved,
  executable, set_executed, voidable, set_voided, set_reconciled, with_decision, planned_on,
}
use aipms.Payment.Claims.{Command, run_command, run_commands, kept}
use aipms.Payment.Claims.Settle.{approve-commit, execute-commit, void_run-commit}
use aipms.Payment.Claims.Reconcile.{reconcile-Reconciled}
use aipms.Payment.Machine.{
  Step, Steps, Steps_trans, is_final, Steps-final, IsChecked, Steps-IsChecked,
}

-- The run that is found for an id afterwards has come there by steps.
abbrev pub Refined : ℕ → PaymentRun → Db → Type 0
Refined id r db = (s : PaymentRun) × (find_run id db ≡ some s) × Steps r s

-- A write that is a step of the runs that pass its test.
update-Refined :
    (id : ℕ) (test : PaymentRun → Bool) (f : PaymentRun → PaymentRun) (r : PaymentRun) (db db' : Db)
    → ((s : PaymentRun) → (f s).id ≡ s.id)
    → (test r ≡ true → Step r (f r))
    → find_run id db ≡ some r
    → db'.payment_runs ≡ update_where test f db.payment_runs
    → Refined id r db'
update-Refined id test f r db db' same step found wrote =
    let after =
      find?-update_where (λ (s : PaymentRun). s.id == id) test f db.payment_runs r
        (λ s. rw (same s) refl) found in
    elim (Bool-cases (test r)) [
      | inl hit ↦ (
        f r,
        subst (λ rows. find? (λ (s : PaymentRun). s.id == id) rows ≡ some (f r)) (sym wrote)
            (after ∙ rw hit refl),
        Steps.next (step hit) (Steps.done (f r)),
      )
      | inr miss ↦ (
        r,
        subst (λ rows. find? (λ (s : PaymentRun). s.id == id) rows ≡ some r) (sym wrote)
            (after ∙ rw miss refl),
        Steps.done r,
      )
    ]

find?-append :
    (p : PaymentRun → Bool) (xs ys : List PaymentRun) (r : PaymentRun)
    → find? p xs ≡ some r
    → find? p (xs ++ ys) ≡ some r
find?-append p [] ys r found = cc
find?-append p (x ∷ xs) ys r found = ground (arith, find?-append p xs ys r)

create-runs :
    (ids : List ℕ) (who : ℕ) (db db' : Db) (run : PaymentRun)
    → create ids who db ≡ ok (run, db')
    → db'.payment_runs ≡ db.payment_runs ++ run ∷ []
unfolding create create_precheck insert_run
create-runs ids who db db' run h =
    let attempt : create_attempt (unique ids) who db ≡ ok (run, db') = ground arith in
    let written = (create_attempt-Planned (unique ids) who db db' run attempt).written in
    ground arith

pub settle-runs :
    (s : Settlement) (id : ℕ) (db db' : Db)
    → settle s id db ≡ ok (tt, db')
    → db'.payment_runs ≡ db.payment_runs
unfolding settle settle_paid_invoice charge
settle-runs s id db db' h = ground arith

-- The run that is closed is the one that was found executed.
closing :
    (run_id id : ℕ) (r run : PaymentRun) (db : Db)
    → find_run id db ≡ some r
    → find_run run_id db ≡ some run
    → is_executed run.status ≡ true
    → (r.id == run_id) ≡ true
    → r.status ≡ PaymentRunStatus.executed
closing run_id id r run db found there executed hit =
    let own : r.id ≡ id =
      ==→eq r.id id (find?-some-holds (λ (x : PaymentRun). x.id == id) db.payment_runs r found) in
    let key : id ≡ run_id = sym own ∙ ==→eq r.id run_id hit in
    let again : find_run run_id db ≡ some r = subst (λ k. find_run k db ≡ some r) key found in
    ground arith

reconcile-Refined :
    (run_id line_id id : ℕ) (s : Settlement) (db db' : Db) (st : PaymentRunStatus) (r : PaymentRun)
    → reconcile run_id line_id s db ≡ ok (st, db')
    → find_run id db ≡ some r
    → Refined id r db'
reconcile-Refined run_id line_id id s db db' st r h found =
    let (run, line, settled, there, executed, on_file, on_run, paid, written) =
      reconcile-Reconciled run_id line_id s db db' st h in
    let same = settle-runs s line.invoice_id (with_decision line_id s db) settled paid in
    elim (Bool-cases (count (planned_on run_id) settled.payment_run_lines == 0)) [
      | inl closed ↦
          let wrote : db'.payment_runs
              ≡ update_where (λ (x : PaymentRun). x.id == run_id) set_reconciled db.payment_runs =
            ap (λ (d : Db). d.payment_runs) written ∙ rw (closed, same) refl in
          update-Refined id (λ (x : PaymentRun). x.id == run_id) set_reconciled r db db' (λ x. refl)
            (λ hit. Step.closes r (closing run_id id r run db found there executed hit)) found wrote
      | inr open_lines ↦
          let kept_runs : db'.payment_runs ≡ db.payment_runs =
            ap (λ (d : Db). d.payment_runs) written ∙ rw (open_lines, same) refl in
          (
            r,
            subst (λ rows. find? (λ (x : PaymentRun). x.id == id) rows ≡ some r) (sym kept_runs)
                found,
            Steps.done r,
          )
    ]

run_command-Refined :
    (id : ℕ) (command : Command) (db : Db) (r : PaymentRun)
    → find_run id db ≡ some r
    → Refined id r (kept db (run_command command db))
unfolding run_command
run_command-Refined id (Command.create_run ids who) db r found =
    elim (Result-cases (create ids who db)) [
      | inl (e, failed) ↦ rw (failed, kept) (r, found, Steps.done r)
      | inr ((run, db'), made) ↦
          rw (made, kept)
            (
              r,
              subst (λ rows. find? (λ (x : PaymentRun). x.id == id) rows ≡ some r)
                  (sym (create-runs ids who db db' run made))
                  (find?-append (λ (x : PaymentRun). x.id == id) db.payment_runs (run ∷ []) r
                    found),
              Steps.done r,
            )
    ]
run_command-Refined id (Command.approve_run run_id who) db r found =
    elim (Result-cases (approve run_id who db)) [
      | inl (e, failed) ↦ rw (failed, kept) (r, found, Steps.done r)
      | inr ((run, db'), made) ↦
          rw (made, kept)
            (update-Refined id (approvable run_id who) (set_approved who) r db db' (λ x. refl)
              (λ hit. Step.approves r who (ground arith) (ground arith)) found
              (ap (λ (d : Db). d.payment_runs) (approve-commit run_id who db db' run made)))
    ]
run_command-Refined id (Command.execute_run run_id who) db r found =
    elim (Result-cases (execute run_id who db)) [
      | inl (e, failed) ↦ rw (failed, kept) (r, found, Steps.done r)
      | inr ((run, db'), made) ↦
          rw (made, kept)
            (update-Refined id (executable run_id) (set_executed who) r db db' (λ x. refl)
              (λ hit. Step.executes r who (ground arith)) found
              (ap (λ (d : Db). d.payment_runs) (execute-commit run_id who db db' run made)))
    ]
run_command-Refined id (Command.void seen run_id who reason) db r found =
    elim (Result-cases (void_run seen run_id who reason db)) [
      | inl (e, failed) ↦ rw (failed, kept) (r, found, Steps.done r)
      | inr ((run, db'), made) ↦
          rw (made, kept)
            (update-Refined id (voidable run_id) (set_voided who reason) r db db' (λ x. refl)
              (λ hit. Step.voids r who reason (ground arith)) found
              (ap (λ (d : Db). d.payment_runs)
                (void_run-commit seen run_id who reason db db' run made)))
    ]
run_command-Refined id (Command.reconcile_line run_id line_id s) db r found =
    elim (Result-cases (reconcile run_id line_id s db)) [
      | inl (e, failed) ↦ rw (failed, kept) (r, found, Steps.done r)
      | inr ((st, db'), made) ↦
          rw (made, kept) (reconcile-Refined run_id line_id id s db db' st r made found)
    ]

-- Whatever commands are given to the payment runs, whether they go through or throw, the run that
-- is found for an id afterwards is reached from the one found before by steps of the abstract
-- machine: a draft approved by another than its maker, an approved run executed, an open run
-- voided, an executed run closed.
pub run_commands-Steps :
    (id : ℕ) (commands : List Command) (db : Db) (r : PaymentRun)
    → find_run id db ≡ some r
    → (s : PaymentRun) × (find_run id (run_commands commands db) ≡ some s) × Steps r s
unfolding run_commands
run_commands-Steps id [] db r found = (r, found, Steps.done r)
run_commands-Steps id (command ∷ commands) db r found =
    let (s, there, first) = run_command-Refined id command db r found in
    let (t, last, rest) =
      run_commands-Steps id commands (kept db (run_command command db)) s there in
    (t, last, Steps_trans first rest)

-- Nothing changes a final run any more.
pub run_commands-final :
    (id : ℕ) (commands : List Command) (db : Db) (r : PaymentRun)
    → find_run id db ≡ some r
    → is_final r.status ≡ true
    → find_run id (run_commands commands db) ≡ some r
run_commands-final id commands db r found final =
    let (s, there, steps) = run_commands-Steps id commands db r found in
    subst (λ t. find_run id (run_commands commands db) ≡ some t) (Steps-final steps final) there

-- Along any sequence of commands to the payment runs, a run that is approved, executed or
-- reconciled has been approved by a user who is not its maker, where that held before.
pub run_commands-IsChecked :
    (id : ℕ) (commands : List Command) (db : Db) (r : PaymentRun)
    → find_run id db ≡ some r
    → IsChecked r
    → (s : PaymentRun) × (find_run id (run_commands commands db) ≡ some s) × IsChecked s
run_commands-IsChecked id commands db r found checked =
    let (s, there, steps) = run_commands-Steps id commands db r found in
    (s, there, Steps-IsChecked steps checked)
