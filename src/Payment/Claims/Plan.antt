-- ===== src/Payment/Claims/Plan.antt =====
-- A plan reserves only invoices that no line holds, so it keeps the tables consistent.
use aipms.Prelude.{
  ℕ, suc, ◌+◌, ◌≤◌, ◌<◌, ◌≡◌, true, false, not, ◌&&◌, List, [], ◌∷◌, ◌++◌, inl, inr, arith,
  Bool-cases, ==→eq, count, length, All-imp, All-imp₂, ltb, ◌==◌, ok,
}
use aipms.Prelude.Rows.{count-append, count-zero, count-imp, All-append, any-append, All-any-false}
use aipms.Database.{Db, Invoice, PaymentRun, PaymentRunLine, is_line_paid, is_voided}
use aipms.Payment.Create.{
  mem, unique, invoices_in, on_live_run, reserves, new_lines, insert_run, create_precheck,
  create_attempt, create,
}
use aipms.Payment.Create.Laws.{Planned, create_attempt-Planned}
use aipms.Payment.Claims.NewLines.{
  new_lines-All, new_lines-before, new_lines-ids, new_lines-holds, snapshot_lines-count,
  count-invoices_in-le, planned_invoice,
}
use aipms.Payment.Claims.Settle.{holds-imp}
use aipms.Payment.Claims.{holds, all_paid, IsConsistent}

-- The reads before the transaction change nothing.
create-attempt :
    (ids : List ℕ) (created_by : ℕ) (db db' : Db) (run : PaymentRun)
    → create ids created_by db ≡ ok (run, db')
    → create_attempt (unique ids) created_by db ≡ ok (run, db')
create-attempt ids created_by db db' run h = unfold create create_precheck in (ground arith)

module _ (ids : List ℕ) (created_by : ℕ) (db db' : Db) (run : PaymentRun) (c : IsConsistent db)
    (p : Planned ids created_by db run db') where
  abbrev fresh_lines : List PaymentRunLine
  fresh_lines = new_lines db.next_id (suc db.next_id) p.lines

  plan_written : db' ≡ record db {
    payment_runs = db.payment_runs ++ run ∷ [];
    payment_run_lines = db.payment_run_lines ++ fresh_lines;
    next_id = suc db.next_id + length p.lines;
  }
  plan_written = unfold insert_run in (ground (arith, p.written))

  plan_id : run.id ≡ db.next_id
  plan_id = unfold insert_run in (ground (arith, p.written))

  -- The run of an old line is no new run.
  old_live :
      (l : PaymentRunLine)
      → (l.id < db.next_id) × (l.run_id < db.next_id)
      → on_live_run (db.payment_runs ++ run ∷ []) l.run_id ≡ true
      → on_live_run db.payment_runs l.run_id ≡ true
  old_live l used h =
      unfold on_live_run in
      ground (
        arith,
        h,
        any-append (λ (r : PaymentRun). r.id == l.run_id && not (is_voided r.status))
            db.payment_runs (run ∷ []),
        plan_id,
      )

  old_count :
      (i : ℕ)
      → count (holds (db.payment_runs ++ run ∷ []) i) db.payment_run_lines
        ≤ count (holds db.payment_runs i) db.payment_run_lines
  old_count i =
      count-imp (holds db.payment_runs i) (holds (db.payment_runs ++ run ∷ []) i)
        db.payment_run_lines
        (All-imp
          (λ l used. holds-imp db.payment_runs (db.payment_runs ++ run ∷ []) i l (old_live l used))
          db.payment_run_lines c.ids_used)

  abbrev planned_rows : ℕ → ℕ
  planned_rows i = count (λ (v : Invoice). v.id == i) (invoices_in ids db.invoices)

  new_count : (i : ℕ) → count (holds (db.payment_runs ++ run ∷ []) i) fresh_lines ≤ planned_rows i
  new_count i = omega (
    arith,
    new_lines-holds (db.payment_runs ++ run ∷ []) i db.next_id (suc db.next_id) p.lines,
    snapshot_lines-count db.vendors i (invoices_in ids db.invoices) p.lines p.frozen,
  )

  not_held :
      (i : ℕ) (l : PaymentRunLine)
      → mem i ids ≡ true
      → all_paid db.invoices i ≡ false
      → (mem l.invoice_id ids && reserves db.payment_runs l) ≡ false
      → (is_line_paid l.status ≡ true → all_paid db.invoices l.invoice_id ≡ true)
      → holds db.payment_runs i l ≡ false
  not_held i l member unpaid free recorded = elim (Bool-cases (l.invoice_id == i)) [
    | inl same ↦
        let e : l.invoice_id ≡ i = ==→eq l.invoice_id i same in
        let m : mem l.invoice_id ids ≡ true = rw e member in
        let u : all_paid db.invoices l.invoice_id ≡ false = rw e unpaid in
        unfold holds in (ground (arith, m, u))
    | inr other ↦ unfold holds in (rw other)
  ]

  -- An invoice of the plan was held by no line.
  planned-not_held :
      (i : ℕ) → 0 < planned_rows i → count (holds db.payment_runs i) db.payment_run_lines ≡ 0
  planned-not_held i h =
      let (member, unpaid) = planned_invoice ids i db.invoices h p.payable in
      count-zero (holds db.payment_runs i) db.payment_run_lines (
        All-imp₂ (λ l. not_held i l member unpaid) db.payment_run_lines
          (All-any-false
            (λ (l : PaymentRunLine). mem l.invoice_id ids && reserves db.payment_runs l)
            db.payment_run_lines p.unreserved)
          c.paid_recorded)

  plan_held_once :
      (i : ℕ)
      → count (holds (db.payment_runs ++ run ∷ []) i) (db.payment_run_lines ++ fresh_lines) ≤ 1
  plan_held_once i = rw count-append (elim (Bool-cases (planned_rows i == 0)) [
    | inl left_out ↦
        omega (arith, old_count i, new_count i, c.held_once i, ==→eq (planned_rows i) 0 left_out)
    | inr taken ↦
        let some_row : 0 < planned_rows i = ground arith in
        omega (
          arith,
          old_count i,
          planned-not_held i some_row,
          new_count i,
          count-invoices_in-le ids i db.invoices,
          c.invoice_ids i,
        )
  ])

  plan_line_ids :
      (k : ℕ) → count (λ (l : PaymentRunLine). l.id == k) (db.payment_run_lines ++ fresh_lines) ≤ 1
  plan_line_ids k = rw count-append (elim (Bool-cases (ltb k (suc db.next_id))) [
    | inl before ↦
        omega (
          arith,
          c.line_ids k,
          new_lines-before db.next_id (suc db.next_id) p.lines k (ground arith),
        )
    | inr after ↦ omega (
      arith,
      count-zero (λ (l : PaymentRunLine). l.id == k) db.payment_run_lines
          (All-imp (λ l used. ground arith) db.payment_run_lines c.ids_used),
      new_lines-ids db.next_id (suc db.next_id) p.lines k,
    )
  ])

  plan-IsConsistent : IsConsistent db'
  plan-IsConsistent = rw plan_written (record {
    held_once = plan_held_once;
    paid_recorded =
        All-append
          (λ (l : PaymentRunLine).
            is_line_paid l.status ≡ true → all_paid db.invoices l.invoice_id ≡ true)
          db.payment_run_lines fresh_lines c.paid_recorded
          (All-imp (λ l n paid. absurd (ground arith)) fresh_lines
            (new_lines-All db.next_id (suc db.next_id) p.lines));
    invoice_ids = c.invoice_ids;
    line_ids = plan_line_ids;
    ids_used =
        All-append
          (λ (l : PaymentRunLine).
            (l.id < suc db.next_id + length p.lines) × (l.run_id < suc db.next_id + length p.lines))
          db.payment_run_lines fresh_lines
          (All-imp (λ l used. (omega arith, omega arith)) db.payment_run_lines c.ids_used)
          (All-imp (λ l n. (omega arith, omega arith)) fresh_lines
            (new_lines-All db.next_id (suc db.next_id) p.lines));
  })

pub create-IsConsistent :
    (ids : List ℕ) (created_by : ℕ) (db db' : Db) (run : PaymentRun)
    → create ids created_by db ≡ ok (run, db')
    → IsConsistent db
    → IsConsistent db'
create-IsConsistent ids created_by db db' run h c =
    plan-IsConsistent (unique ids) created_by db db' run c (
      create_attempt-Planned (unique ids) created_by db db' run
        (create-attempt ids created_by db db' run h))
