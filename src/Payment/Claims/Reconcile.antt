-- ===== src/Payment/Claims/Reconcile.antt =====
-- Reconciling a line keeps the tables consistent.
use aipms.Prelude.{
  ℕ, ◌≤◌, ◌<◌, ◌≡◌, true, not, ◌&&◌, some, List, inl, inr, arith, Bool-cases, Option-cases,
  Result-cases, ==→eq, find?, count, update_where, All, All-imp, All-of, ◌==◌, ok, if◌then◌else◌,
}
use aipms.Prelude.Rows.{
  count-update_where-le, any-update_where-imp, All-update_where, any-find?, find?-only,
}
use aipms.Database.{
  Db, PaymentRun, PaymentRunLine, PaymentRunStatus, is_line_paid, is_voided, is_executed,
}
use aipms.Payment.Create.{reserves, on_live_run}
use aipms.Payment.Run.{
  Settlement, reconcile, find_run, decidable_line, set_line, planned_on, settle, decide_line,
  close_if_done, with_decision, with_closed, set_reconciled, line_status,
}
use aipms.Payment.Claims.Invoices.{Settles, pays, settle-Settles}
use aipms.Payment.Claims.Settle.{with_runs-IsConsistent}
use aipms.Payment.Claims.{holds, all_paid, IsConsistent}

-- What a reconciliation that went through has read and written.
abbrev pub Reconciled : ℕ → ℕ → Settlement → Db → Db → Type 0
Reconciled run_id line_id s db db' =
    (run : PaymentRun) × (line : PaymentRunLine) × (settled : Db) × (find_run run_id db ≡ some run)
    × (is_executed run.status ≡ true)
    × (find? (λ (l : PaymentRunLine). l.id == line_id) db.payment_run_lines ≡ some line)
    × (line.run_id ≡ run_id)
    × (settle s line.invoice_id (with_decision line_id s db) ≡ ok (tt, settled))
    × (db' ≡ (
        if count (planned_on run_id) settled.payment_run_lines == 0
        then with_closed run_id settled
        else settled))

pub reconcile-Reconciled :
    (run_id line_id : ℕ) (s : Settlement) (db db' : Db) (st : PaymentRunStatus)
    → reconcile run_id line_id s db ≡ ok (st, db')
    → Reconciled run_id line_id s db db'
unfolding reconcile decide_line close_if_done
reconcile-Reconciled run_id line_id s db db' st h = elim (Option-cases (find_run run_id db)) [
  | inl missing ↦ absurd (ground arith)
  | inr (run, found) ↦
      elim (Option-cases (find? (λ (l : PaymentRunLine). l.id == line_id) db.payment_run_lines)) [
        | inl missing ↦ absurd (ground arith)
        | inr (line, on_file) ↦
            elim (Result-cases (settle s line.invoice_id (with_decision line_id s db))) [
              | inl (e, failed) ↦ absurd (ground arith)
              | inr ((unit, settled), done) ↦ (
                run,
                line,
                settled,
                found,
                ground arith,
                on_file,
                ground arith,
                ground arith,
                ground arith,
              )
            ]
      ]
]

-- The run of the line is executed, so it is live.
found_is_live :
    (runs : List PaymentRun) (k : ℕ) {r : PaymentRun}
    → find? (λ (x : PaymentRun). x.id == k) runs ≡ some r
    → is_executed r.status ≡ true
    → on_live_run runs k ≡ true
unfolding on_live_run
found_is_live runs k h e =
    any-find? (λ x. x.id == k) (λ x. not (is_voided x.status)) runs h (ground arith)

closed-live :
    (runs : List PaymentRun) (run_id k : ℕ)
    → on_live_run runs run_id ≡ true
    → on_live_run (update_where (λ (r : PaymentRun). r.id == run_id) set_reconciled runs) k ≡ true
    → on_live_run runs k ≡ true
closed-live runs run_id k live h = elim (Bool-cases (k == run_id)) [
  | inl same ↦ rw (==→eq k run_id same) live
  | inr other ↦
      unfold on_live_run in
      any-update_where-imp (λ r. r.id == run_id) (λ r. r.id == k && not (is_voided r.status))
        set_reconciled runs (λ r t e. absurd (ground arith)) h
]

-- The decided line held its invoice before, and nothing else has changed.
decided-holds :
    (runs : List PaymentRun) (s : Settlement) (line_id i : ℕ) (line x : PaymentRunLine)
    → on_live_run runs line.run_id ≡ true
    → (x.id == line_id ≡ true → x ≡ line)
    → decidable_line line_id x ≡ true
    → holds runs i (set_line s x) ≡ true
    → holds runs i x ≡ true
unfolding holds reserves
decided-holds runs s line_id i line x live only d h =
    let e : x ≡ line = only (ground arith) in
    let alive : on_live_run runs x.run_id ≡ true = rw e live in ground arith

line_status-paid : (s : Settlement) → is_line_paid (line_status s) ≡ true → pays s ≡ true
line_status-paid s h = ground arith

module _ (db settled : Db) (s : Settlement) (line_id : ℕ) (line : PaymentRunLine)
    (c : IsConsistent db)
    (only : All (λ (x : PaymentRunLine). (x.id == line_id) ≡ true → x ≡ line) db.payment_run_lines)
    (live : on_live_run db.payment_runs line.run_id ≡ true)
    (f : Settles line.invoice_id (pays s) (with_decision line_id s db) settled) where
  settled-held_once : (i : ℕ) → count (holds settled.payment_runs i) settled.payment_run_lines ≤ 1
  settled-held_once i =
      rw (f.same_runs, f.same_lines)
        (omega (
          arith,
          count-update_where-le (decidable_line line_id) (holds db.payment_runs i) (set_line s)
              db.payment_run_lines
              (All-imp (λ x e. decided-holds db.payment_runs s line_id i line x live e)
                db.payment_run_lines only),
          c.held_once i,
        ))

  abbrev Recorded : PaymentRunLine → Type 0
  Recorded l = is_line_paid l.status ≡ true → all_paid settled.invoices l.invoice_id ≡ true

  decided-Recorded :
      (x : PaymentRunLine)
      → ((x.id == line_id) ≡ true → x ≡ line)
      → decidable_line line_id x ≡ true
      → Recorded x
      → Recorded (set_line s x)
  decided-Recorded x e d _ paid =
      let same : x ≡ line = e (ground arith) in rw same (f.now_paid (line_status-paid s paid))

  settled-paid-Recorded : All Recorded settled.payment_run_lines
  settled-paid-Recorded = rw f.same_lines (
      All-update_where Recorded (decidable_line line_id) (set_line s) db.payment_run_lines
        (All-imp (λ l h p. f.still_paid l.invoice_id (h p)) db.payment_run_lines c.paid_recorded)
        (All-imp decided-Recorded db.payment_run_lines only))

  settled-line_ids :
      (k : ℕ) → count (λ (l : PaymentRunLine). l.id == k) settled.payment_run_lines ≤ 1
  settled-line_ids k = rw f.same_lines (
      omega (
        arith,
        count-update_where-le (decidable_line line_id) (λ l. l.id == k) (set_line s)
            db.payment_run_lines (All-of (λ x p q. q) db.payment_run_lines),
        c.line_ids k,
      ))

  settled-ids_used :
      All
        (λ (l : PaymentRunLine). (l.id < settled.next_id) × (l.run_id < settled.next_id))
        settled.payment_run_lines
  settled-ids_used =
      rw (f.same_lines, f.same_next)
        (All-update_where (λ (l : PaymentRunLine). (l.id < db.next_id) × (l.run_id < db.next_id))
          (decidable_line line_id) (set_line s) db.payment_run_lines c.ids_used
          (All-of (λ x d u. u) db.payment_run_lines))

  settled-IsConsistent : IsConsistent settled
  settled-IsConsistent = record {
    held_once = settled-held_once;
    paid_recorded = settled-paid-Recorded;
    invoice_ids = λ k. omega (arith, f.invoice_ids k, c.invoice_ids k);
    line_ids = settled-line_ids;
    ids_used = settled-ids_used;
  }

pub reconcile-IsConsistent :
    (run_id line_id : ℕ) (s : Settlement) (db db' : Db) (st : PaymentRunStatus)
    → reconcile run_id line_id s db ≡ ok (st, db')
    → IsConsistent db
    → IsConsistent db'
reconcile-IsConsistent run_id line_id s db db' st h c =
    let (run, line, settled, found, executed, on_file, on_run, paid, written) =
      reconcile-Reconciled run_id line_id s db db' st h in
    let f =
      settle-Settles s line.invoice_id (with_decision line_id s db) settled
        (c.invoice_ids line.invoice_id) paid in
    let live = found_is_live db.payment_runs run_id found executed in
    let only =
      find?-only (λ (l : PaymentRunLine). l.id == line_id) db.payment_run_lines line
        (c.line_ids line_id) on_file in
    let consistent : IsConsistent settled =
      settled-IsConsistent db settled s line_id line c only (rw on_run live) f in
    let still_live : on_live_run settled.payment_runs run_id ≡ true = rw (f.same_runs) live in
    elim (Bool-cases (count (planned_on run_id) settled.payment_run_lines == 0)) [
      | inl done ↦
          rw (written, done)
            (with_runs-IsConsistent settled
              (update_where (λ (r : PaymentRun). r.id == run_id) set_reconciled
                settled.payment_runs)
              (λ k. closed-live settled.payment_runs run_id k still_live) consistent)
      | inr open_lines ↦ rw (written, open_lines) consistent
    ]
