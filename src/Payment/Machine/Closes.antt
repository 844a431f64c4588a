-- ===== src/Payment/Machine/Closes.antt =====
-- An executed run with planned lines can always be closed: one reconciliation for each of them does it;
-- apps/api/src/payment-run/payment-run.service.ts.
use aipms.Prelude.{
  ℕ, zero, suc, ◌-◌, ◌<◌, ◌≡◌, ◌≢◌, refl, sym, subst, ap, ◌∙◌, Bool, true, false, inl, inr, some,
  none, List, [], ◌∷◌, arith, Bool-cases, Option-cases, ok, Result-cases, find?, count, length,
  ◌==◌, ==-refl, find?-some-holds, if◌then◌else◌, All,
}
use aipms.Prelude.Rows.{find?-only, find?-update_where, count-and-le}
use aipms.Database.{Db, PaymentRun, PaymentRunLine, PaymentRunStatus, is_planned}
use aipms.Payment.Run.{
  Settlement, find_run, reconcile, settle, decidable_line, set_reconciled, with_closed,
  with_decision, planned_on, decide_line, close_if_done,
}
use aipms.Payment.Claims.{IsConsistent, Command, run_command, run_commands, kept}
use aipms.Payment.Claims.Reconcile.{reconcile-Reconciled, reconcile-IsConsistent}
use aipms.Payment.Machine.Refines.{settle-runs}
use aipms.Payment.Machine.Progress.{reconcile_progress, closed-lines}

-- A row that is found is one of the rows.
find?-All :
    (P : PaymentRunLine → Type 0) (p : PaymentRunLine → Bool) (xs : List PaymentRunLine)
    (x : PaymentRunLine)
    → find? p xs ≡ some x
    → All P xs
    → P x
find?-All P p [] x found h = cc
find?-All P p (y ∷ xs) x found h = elim (Bool-cases (p y)) [
  | inl hit ↦ let e : y ≡ x = ground arith in subst P e h.0
  | inr miss ↦ find?-All P p xs x (ground arith) h.1
]

find?-exists :
    (p q : PaymentRunLine → Bool) (xs : List PaymentRunLine) (x : PaymentRunLine)
    → find? p xs ≡ some x
    → q x ≡ true
    → find? q xs ≢ none
find?-exists p q [] x found h = cc
find?-exists p q (y ∷ xs) x found h = ground (arith, find?-exists p q xs x)

find?-count :
    (p : PaymentRunLine → Bool) (xs : List PaymentRunLine) → 0 < count p xs → find? p xs ≢ none
find?-count p [] h = ground arith
find?-count p (y ∷ xs) h = ground (arith, find?-count p xs)

count-find? :
    (p : PaymentRunLine → Bool) (xs : List PaymentRunLine) (x : PaymentRunLine)
    → find? p xs ≡ some x
    → 0 < count p xs
count-find? p [] x found = cc
count-find? p (y ∷ xs) x found = ground (arith, count-find? p xs x)

-- A planned line of the run, and that it is the one of its id.
planned_line :
    (run_id : ℕ) (db : Db)
    → IsConsistent db
    → 0 < count (planned_on run_id) db.payment_run_lines
    → (l : PaymentRunLine) × (planned_on run_id l ≡ true)
      × (find? (λ (x : PaymentRunLine). x.id == l.id) db.payment_run_lines ≡ some l)
      × (count (decidable_line l.id) db.payment_run_lines ≡ 1)
planned_line run_id db c some_left =
    elim (Option-cases (find? (planned_on run_id) db.payment_run_lines)) [
      | inl nothing ↦
          absurd (find?-count (planned_on run_id) db.payment_run_lines some_left nothing)
      | inr (l, found) ↦
          let planned = find?-some-holds (planned_on run_id) db.payment_run_lines l found in
          let has_id = λ (x : PaymentRunLine). x.id == l.id in
          elim (Option-cases (find? has_id db.payment_run_lines)) [
            | inl nothing ↦ absurd (
                find?-exists (planned_on run_id) has_id db.payment_run_lines l found (==-refl l.id)
                  nothing)
            | inr (k, there) ↦
                let only = find?-only has_id db.payment_run_lines k (c.line_ids l.id) there in
                let one : l ≡ k =
                  find?-All (λ x. (x.id == l.id) ≡ true → x ≡ k) (planned_on run_id)
                    db.payment_run_lines l found only (==-refl l.id) in
                let at_most =
                  count-and-le has_id (λ (x : PaymentRunLine). is_planned x.status)
                    db.payment_run_lines in
                let ids = c.line_ids l.id in
                elim (Option-cases (find? (decidable_line l.id) db.payment_run_lines)) [
                  | inl nothing ↦ absurd (
                      find?-exists (planned_on run_id) (decidable_line l.id) db.payment_run_lines l
                        found (ground (arith, ==-refl l.id)) nothing)
                  | inr (m, decidable) ↦
                      let at_least =
                        count-find? (decidable_line l.id) db.payment_run_lines m decidable in
                      (l, planned, there ∙ ap some (sym one), omega (arith, at_most, ids, at_least))
                ]
          ]
    ]

-- The reconciliation of a planned line of an executed run goes through, when the bank has rejected it.
rejected_goes_through :
    (run_id : ℕ) (db : Db) (r : PaymentRun) (l : PaymentRunLine)
    → find_run run_id db ≡ some r
    → r.status ≡ PaymentRunStatus.executed
    → planned_on run_id l ≡ true
    → find? (λ (x : PaymentRunLine). x.id == l.id) db.payment_run_lines ≡ some l
    → count (decidable_line l.id) db.payment_run_lines ≡ 1
    → (st : PaymentRunStatus) × (db' : Db) × (reconcile run_id l.id Settlement.rejected db
        ≡ ok (st, db'))
unfolding reconcile decide_line settle close_if_done
rejected_goes_through run_id db r l found executed planned there one =
    elim (Result-cases (reconcile run_id l.id Settlement.rejected db)) [
      | inl (e, thrown) ↦ absurd (ground arith)
      | inr ((st, db'), passed) ↦ (st, db', passed)
    ]

-- What becomes of the run: it is closed if no planned line is left.
closed-runs :
    (run_id : ℕ) (is_closed : Bool) (settled db' : Db) (r : PaymentRun)
    → db' ≡ (if is_closed then with_closed run_id settled else settled)
    → find_run run_id settled ≡ some r
    → find_run run_id db' ≡ some (if is_closed then set_reconciled r else r)
closed-runs run_id true settled db' r written found =
    let key = find?-some-holds (λ (x : PaymentRun). x.id == run_id) settled.payment_runs r found in
    ap (find_run run_id) written
    ∙ find?-update_where (λ (x : PaymentRun). x.id == run_id) (λ (x : PaymentRun). x.id == run_id)
        set_reconciled settled.payment_runs r (λ x. refl) found
    ∙ rw key refl
closed-runs run_id false settled db' r written found = ap (find_run run_id) written ∙ found

reconcile-run :
    (run_id line_id : ℕ) (s : Settlement) (db db' : Db) (st : PaymentRunStatus) (r : PaymentRun)
    → reconcile run_id line_id s db ≡ ok (st, db')
    → find_run run_id db ≡ some r
    → find_run run_id db'
      ≡ some (if count (planned_on run_id) db'.payment_run_lines == 0 then set_reconciled r else r)
reconcile-run run_id line_id s db db' st r h found =
    let (run, line, settled, there, executed, on_file, on_run, paid, written) =
      reconcile-Reconciled run_id line_id s db db' st h in
    let is_closed = count (planned_on run_id) settled.payment_run_lines == 0 in
    let runs = settle-runs s line.invoice_id (with_decision line_id s db) settled paid in
    let lines = closed-lines run_id is_closed settled db' written in
    let same : find_run run_id settled ≡ some r =
      ap (λ rows. find? (λ (x : PaymentRun). x.id == run_id) rows) runs ∙ found in
    rw lines (closed-runs run_id is_closed settled db' r written same)

-- One reconciliation that goes through: one planned line less.
closing_step :
    (n run_id : ℕ) (db : Db) (r : PaymentRun)
    → IsConsistent db
    → find_run run_id db ≡ some r
    → r.status ≡ PaymentRunStatus.executed
    → count (planned_on run_id) db.payment_run_lines ≡ suc n
    → (command : Command) × (db' : Db) × (kept db (run_command command db) ≡ db')
      × IsConsistent db'
      × (count (planned_on run_id) db'.payment_run_lines ≡ n)
      × (find_run run_id db' ≡ some (if n == 0 then set_reconciled r else r))
unfolding run_command
closing_step n run_id db r c found executed left =
    let (l, planned, there, one) = planned_line run_id db c (omega (arith, left)) in
    let (st, db', passed) = rejected_goes_through run_id db r l found executed planned there one in
    let fewer = (reconcile_progress run_id l.id Settlement.rejected db db' st c passed).0 in
    let exactly : count (planned_on run_id) db'.payment_run_lines ≡ n =
      omega (arith, fewer, left) in
    let after = reconcile-run run_id l.id Settlement.rejected db db' st r passed found in
    (
      Command.reconcile_line run_id l.id Settlement.rejected,
      db',
      ground arith,
      reconcile-IsConsistent run_id l.id Settlement.rejected db db' st passed c,
      exactly,
      subst (λ m. find_run run_id db' ≡ some (if m == 0 then set_reconciled r else r)) exactly
          after,
    )

suc_not_zero : (n : ℕ) → (suc n == 0) ≡ false
suc_not_zero n = ground arith

-- As many commands as there are planned lines, and the run is reconciled.
closes_in :
    (n run_id : ℕ) (db : Db) (r : PaymentRun)
    → IsConsistent db
    → find_run run_id db ≡ some r
    → r.status ≡ PaymentRunStatus.executed
    → count (planned_on run_id) db.payment_run_lines ≡ suc n
    → (commands : List Command) × (length commands ≡ suc n)
      × (find_run run_id (run_commands commands db) ≡ some (set_reconciled r))
unfolding run_commands
closes_in zero run_id db r c found executed left =
    let (command, db', step, consistent, planned, after) =
      closing_step 0 run_id db r c found executed left in
    (command ∷ [], refl, ap (find_run run_id) step ∙ after)
closes_in (suc n) run_id db r c found executed left =
    let (command, db', step, consistent, planned, after) =
      closing_step (suc n) run_id db r c found executed left in
    let still : find_run run_id db' ≡ some r =
      subst (λ b. find_run run_id db' ≡ some (if b then set_reconciled r else r)) (suc_not_zero n)
        after in
    let (rest, long, closed) = closes_in n run_id db' r consistent still executed planned in
    (command ∷ rest, ap suc long, ap (λ d. find_run run_id (run_commands rest d)) step ∙ closed)

-- From consistent tables, an executed run with planned lines can be reconciled: there are as many
-- commands as it has planned lines after which the run that is found is the same run, reconciled.
pub executed_closes :
    (run_id : ℕ) (db : Db) (r : PaymentRun)
    → IsConsistent db
    → find_run run_id db ≡ some r
    → r.status ≡ PaymentRunStatus.executed
    → 0 < count (planned_on run_id) db.payment_run_lines
    → (commands : List Command) × (length commands ≡ count (planned_on run_id) db.payment_run_lines)
      × (find_run run_id (run_commands commands db) ≡ some (set_reconciled r))
executed_closes run_id db r c found executed some_left =
    let n = count (planned_on run_id) db.payment_run_lines - 1 in
    let e : count (planned_on run_id) db.payment_run_lines ≡ suc n = omega (arith, some_left) in
    let (commands, long, closed) = closes_in n run_id db r c found executed e in
    (commands, long ∙ sym e, closed)
