-- ===== src/Invoice/Coverage/Rematch.antt =====
-- A match that is made again keeps an order covered, and the loop of `rematchOpenForPo` does;
-- apps/api/src/invoice/invoice.service.ts.
use aipms.Prelude.{
  ℕ, ◌≡◌, subst, ◌&&◌, none, List, [], ◌∷◌, inl, inr, arith, Bool-cases, ok, Result-cases, filter,
  All, is_ref, length,
}
use aipms.Database.{Db, PurchaseOrder, Invoice, InvoiceStatus}
use aipms.Invoice.Match.{match_against_po, holds_value}
use aipms.Invoice.Match.Laws.{Rounds}
use aipms.Invoice.Register.{status_for, emit_status_events}
use aipms.Invoice.Rematch.{
  counted, sort_by, by_received, waits, match_input, set_match, update_invoice, rematch_one,
  rematch_loop, rematch_open_for_po, RematchSummary,
}
use aipms.Invoice.Coverage.Ledger.{
  Untouched, Untouched-refl, Untouched-step, Ledger, IsCovered, SameTables, SameTables-Ledger,
  SameTables-IsCovered,
}
use aipms.Invoice.Coverage.Write.{update_invoice-Ledger, allocated_value-left_out}
use aipms.Invoice.Coverage.Outcome.{
  emit_status_events-SameTables, set_match-Keeps, holds_value-status_for, matched-IsCovered,
  demoted-IsCovered,
}
use aipms.Invoice.Coverage.Known.{Known, SameTables-Known, update_invoice-Known, sorted-Known}

-- What a rematch writes.
rematch_one-written :
    (ratio_bps : ℕ → ℕ → ℕ) (po_id : ℕ) (i : Invoice) (status : InvoiceStatus) (db db' : Db)
    → rematch_one ratio_bps po_id i db ≡ ok (status, db')
    → let result = match_against_po ratio_bps (match_input po_id i) none db in
      SameTables (update_invoice i.id (set_match (status_for result.outcome) result) db) db'
unfolding rematch_one
rematch_one-written ratio_bps po_id i status db db' h =
    let result = match_against_po ratio_bps (match_input po_id i) none db in
    let written = update_invoice i.id (set_match (status_for result.outcome) result) db in
    elim (Result-cases (emit_status_events i.id (status_for result.outcome) written)) [
      | inl (e, thrown) ↦ absurd (ground arith)
      | inr ((done, after), e) ↦
          let same : after ≡ db' = ground arith in
          subst (SameTables written) same
            (emit_status_events-SameTables i.id (status_for result.outcome) written after done e)
    ]

pub rematch_one-IsCovered :
    (ratio_bps : ℕ → ℕ → ℕ) (po : PurchaseOrder) (i : Invoice) (status : InvoiceStatus)
    (db db' : Db)
    → Rounds ratio_bps
    → Ledger po db
    → IsCovered po db
    → Known db i
    → rematch_one ratio_bps po.id i db ≡ ok (status, db')
    → Ledger po db' × IsCovered po db'
rematch_one-IsCovered ratio_bps po i status db db' rounds ledger covered known h =
    let result = match_against_po ratio_bps (match_input po.id i) none db in
    let f = set_match (status_for result.outcome) result in
    let written = update_invoice i.id f db in
    let same = rematch_one-written ratio_bps po.id i status db db' h in
    let keeps = set_match-Keeps (status_for result.outcome) result in
    let after : IsCovered po written = elim (Bool-cases (holds_value (status_for result.outcome))) [
      | inl holds ↦
          matched-IsCovered ratio_bps po i none db rounds ledger known.0 known.1
            (allocated_value-left_out po i.id db ledger)
            (holds_value-status_for result.outcome holds) f keeps
      | inr out ↦ demoted-IsCovered po i.id db ledger covered f (λ j. out)
    ] in
    (
      SameTables-Ledger po written db' same (update_invoice-Ledger po i.id f db keeps ledger),
      SameTables-IsCovered po written db' same after,
    )

rematch_one-Known :
    (ratio_bps : ℕ → ℕ → ℕ) (po_id : ℕ) (i : Invoice) (status : InvoiceStatus) (db db' : Db)
    (is : List Invoice)
    → rematch_one ratio_bps po_id i db ≡ ok (status, db')
    → All (Known db) is
    → All (Known db') is
rematch_one-Known ratio_bps po_id i status db db' is h known =
    let result = match_against_po ratio_bps (match_input po_id i) none db in
    let f = set_match (status_for result.outcome) result in
    SameTables-Known (update_invoice i.id f db) db' is
      (rematch_one-written ratio_bps po_id i status db db' h)
      (update_invoice-Known i.id f db is (set_match-Keeps (status_for result.outcome) result) known)

rematch_loop-IsCovered :
    (ratio_bps : ℕ → ℕ → ℕ) (po : PurchaseOrder) (is : List Invoice)
    (before summary : RematchSummary) (db db' : Db)
    → Rounds ratio_bps
    → Ledger po db
    → IsCovered po db
    → All (Known db) is
    → rematch_loop ratio_bps po.id is before db ≡ ok (summary, db')
    → Ledger po db' × IsCovered po db'
unfolding rematch_loop
rematch_loop-IsCovered ratio_bps po [] before summary db db' rounds ledger covered known h =
    let same : db ≡ db' = ground arith in
    (subst (Ledger po) same ledger, subst (IsCovered po) same covered)
rematch_loop-IsCovered ratio_bps po (i ∷ is) before summary db db' rounds ledger covered known h =
    elim (Result-cases (rematch_one ratio_bps po.id i db)) [
      | inl (e, thrown) ↦ absurd (ground arith)
      | inr ((status, next), e) ↦
          let (ledger', covered') =
            rematch_one-IsCovered ratio_bps po i status db next rounds ledger covered known.0 e in
          rematch_loop-IsCovered ratio_bps po is (counted status before) summary next db' rounds
            ledger' covered' (rematch_one-Known ratio_bps po.id i status db next is e known.1)
            (ground arith)
    ]

pub rematch_open_for_po-IsCovered :
    (ratio_bps : ℕ → ℕ → ℕ) (po : PurchaseOrder) (summary : RematchSummary) (db db' : Db)
    → Rounds ratio_bps
    → Ledger po db
    → IsCovered po db
    → rematch_open_for_po ratio_bps po.id db ≡ ok (summary, db')
    → Ledger po db' × IsCovered po db'
unfolding rematch_open_for_po
rematch_open_for_po-IsCovered ratio_bps po summary db db' rounds ledger covered h =
    let open_for = λ (i : Invoice). is_ref po.id i.po_id && waits i in
    let waiting = sort_by by_received (filter open_for db.invoices) in
    rematch_loop-IsCovered ratio_bps po waiting
      (record { considered = length waiting; matched = 0; still_waiting = 0; exceptions = 0 })
      summary db db' rounds ledger covered (sorted-Known po by_received open_for db ledger) h

rematch_loop-Untouched :
    (ratio_bps : ℕ → ℕ → ℕ) (po_id : ℕ) (is : List Invoice) (before summary : RematchSummary)
    (db db' : Db)
    → rematch_loop ratio_bps po_id is before db ≡ ok (summary, db')
    → Untouched db db'
unfolding rematch_loop
rematch_loop-Untouched ratio_bps po_id [] before summary db db' h =
    let same : db ≡ db' = ground arith in subst (Untouched db) same (Untouched-refl db)
rematch_loop-Untouched ratio_bps po_id (i ∷ is) before summary db db' h =
    elim (Result-cases (rematch_one ratio_bps po_id i db)) [
      | inl (e, thrown) ↦ absurd (ground arith)
      | inr ((status, next), e) ↦
          let result = match_against_po ratio_bps (match_input po_id i) none db in
          Untouched-step i.id (set_match (status_for result.outcome) result) db next db'
            (rematch_one-written ratio_bps po_id i status db next e)
            (rematch_loop-Untouched ratio_bps po_id is (counted status before) summary next db'
              (ground arith))
    ]

pub rematch_open_for_po-Untouched :
    (ratio_bps : ℕ → ℕ → ℕ) (po_id : ℕ) (summary : RematchSummary) (db db' : Db)
    → rematch_open_for_po ratio_bps po_id db ≡ ok (summary, db')
    → Untouched db db'
unfolding rematch_open_for_po
rematch_open_for_po-Untouched ratio_bps po_id summary db db' h =
    let open_for = λ (i : Invoice). is_ref po_id i.po_id && waits i in
    let waiting = sort_by by_received (filter open_for db.invoices) in
    rematch_loop-Untouched ratio_bps po_id waiting
      (record { considered = length waiting; matched = 0; still_waiting = 0; exceptions = 0 })
      summary db db' h
