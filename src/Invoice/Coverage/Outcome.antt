-- ===== src/Invoice/Coverage/Outcome.antt =====
-- What the outcome of a match leaves of an order that is covered;
-- apps/api/src/invoice/invoice.service.ts.
use aipms.Prelude.{ℕ, ◌≡◌, refl, subst, true, false, Option, none, some, arith, ok}
use aipms.Prelude.Int.{◌-ℤ◌, ◌≤ℤ◌}
use aipms.Database.{Db, PurchaseOrder, Invoice, InvoiceStatus, MatchOutcome, MatchResult}
use aipms.Invoice.Match.{match_against_po, received_value, allocated_value, holds_value}
use aipms.Invoice.Match.Laws.{Rounds, IsAmount, Covers, match_against_po-matched}
use aipms.Invoice.Register.{status_for, emit_status_events}
use aipms.Invoice.Rematch.{match_input, set_match, update_invoice}
use aipms.Invoice.Coverage.Ledger.{
  Ledger, IsCovered, SameTables, Covers-add, Covers-mono, allocated_value-nonneg,
}
use aipms.Invoice.Coverage.Write.{
  Keeps, HasAmount, update_invoice-allocated, update_invoice-demoted, allocated_value-left_out,
  ≤ℤ_trans, ≤ℤ_trans_add, update_invoice-received,
}

-- The events of a status are all that is written.
pub emit_status_events-SameTables :
    (id : ℕ) (status : InvoiceStatus) (db db' : Db) (done : Unit {0})
    → emit_status_events id status db ≡ ok (done, db')
    → SameTables db db'
unfolding emit_status_events
emit_status_events-SameTables id status db db' done h = record {
  orders = ground arith;
  invoices = ground arith;
  receipts = ground arith;
  next_id = ground arith;
  approvals = ground arith;
  budgets = ground arith;
  requisitions = ground arith;
}

-- The write of a rematch.
pub set_match-Keeps :
    (status : InvoiceStatus) (result : MatchResult) → Keeps (set_match status result)
set_match-Keeps status result = record { id_same = λ i. refl; amount_same = λ i. refl }

-- Only a match that comes out as matched makes an invoice hold value.
pub holds_value-status_for :
    (outcome : MatchOutcome)
    → holds_value (status_for outcome) ≡ true
    → outcome ≡ MatchOutcome.matched
unfolding status_for
holds_value-status_for outcome h = ground arith

-- A match covers the amount with what the order at hand has left.
matched-Covers :
    (ratio_bps : ℕ → ℕ → ℕ) (po : PurchaseOrder) (i : Invoice) (left_out : Option ℕ) (db : Db)
    → Rounds ratio_bps
    → Ledger po db
    → IsAmount i.amount_minor
    → (match_against_po ratio_bps (match_input po.id i) left_out db).outcome ≡ MatchOutcome.matched
    → Covers i.amount_minor (received_value po db -ℤ allocated_value po.id left_out db)
matched-Covers ratio_bps po i left_out db rounds ledger amount matched =
    let (order, sound) =
      match_against_po-matched ratio_bps (match_input po.id i) left_out db rounds amount matched in
    let one : order ≡ po = let a = sound.found in let b = ledger.found in cc in
    subst (λ p. Covers i.amount_minor (received_value p db -ℤ allocated_value p.id left_out db)) one
      sound.covered

-- The order is covered once a match that comes out as matched is written.
pub matched-IsCovered :
    (ratio_bps : ℕ → ℕ → ℕ) (po : PurchaseOrder) (i : Invoice) (left_out : Option ℕ) (db : Db)
    → Rounds ratio_bps
    → Ledger po db
    → HasAmount i db
    → IsAmount i.amount_minor
    → allocated_value po.id (some i.id) db ≤ℤ allocated_value po.id left_out db
    → (match_against_po ratio_bps (match_input po.id i) left_out db).outcome ≡ MatchOutcome.matched
    → (f : Invoice → Invoice) → Keeps f
    → IsCovered po (update_invoice i.id f db)
matched-IsCovered ratio_bps po i left_out db rounds ledger same amount less matched f keeps =
    rw (update_invoice-received po i.id f db) (
      Covers-add i.amount_minor (received_value po db) (allocated_value po.id left_out db)
        (allocated_value po.id none (update_invoice i.id f db))
        (matched-Covers ratio_bps po i left_out db rounds ledger amount matched)
        (allocated_value-nonneg po left_out db ledger)
        (≤ℤ_trans_add (allocated_value po.id none (update_invoice i.id f db))
          (allocated_value po.id (some i.id) db) (allocated_value po.id left_out db) i.amount_minor
          (update_invoice-allocated po i f db ledger keeps same amount.0) less))

-- A covered order is covered once an invoice is demoted.
pub demoted-IsCovered :
    (po : PurchaseOrder) (id : ℕ) (db : Db)
    → Ledger po db
    → IsCovered po db
    → (f : Invoice → Invoice) → ((i : Invoice) → holds_value (f i).status ≡ false)
    → IsCovered po (update_invoice id f db)
demoted-IsCovered po id db ledger covered f out = rw (update_invoice-received po id f db) (
    Covers-mono (allocated_value po.id none db)
      (allocated_value po.id none (update_invoice id f db)) (received_value po db)
      (received_value po db) covered
      (≤ℤ_trans (allocated_value po.id none (update_invoice id f db))
        (allocated_value po.id (some id) db) (allocated_value po.id none db)
        (update_invoice-demoted po id f db ledger out) (allocated_value-left_out po id db ledger))
      (omega arith))
