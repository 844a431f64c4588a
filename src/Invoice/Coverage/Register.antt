-- ===== src/Invoice/Coverage/Register.antt =====
-- A registered invoice leaves its order covered: `register` of
-- apps/api/src/invoice/invoice.service.ts.
use aipms.Prelude.{
  ℕ, suc, ◌<◌, ◌≡◌, refl, subst, true, false, Option, none, some, List, [], ◌∷◌, ◌++◌, inl, inr,
  arith, Bool-cases, Option-cases, Result, ok, err, Result-cases, find?, ◌==◌, All, All-imp,
  or_else,
}
use aipms.Prelude.Int.{ℤ, pos, ◌+ℤ◌, ◌-ℤ◌, ◌≤ℤ◌}
use aipms.Prelude.Rows.{All-append}
use aipms.Prelude.Text.{units}
use aipms.Money.{assert_database_int}
use aipms.Money.Laws.{assert_database_int_iff}
use aipms.Tax.{TaxComputation, TaxPolicyConfig, compute_tax}
use aipms.Database.{Db, PurchaseOrder, Invoice, MatchResult}
use aipms.Invoice.Match.{
  MatchInput, match_against_po, received_value, allocated_value, allocates, holds_value,
}
use aipms.Invoice.Match.Laws.{Rounds, IsAmount, Covers, match_against_po-matched}
use aipms.Invoice.Register.{
  RegisterInvoiceInput, assert_persistable_computation, status_of, emit_status_events,
  registered_match, new_invoice, insert_invoice, registered_match_for, register_new, register,
  is_same_invoice,
}
use aipms.Invoice.Coverage.Held.{UniqueIds, held-snoc, held-snoc_not}
use aipms.Invoice.Coverage.Ledger.{
  Ledger, IsCovered, SameTables, SameTables-Ledger, SameTables-IsCovered, Covers-add,
  allocated_value-nonneg,
}
use aipms.Invoice.Coverage.Outcome.{holds_value-status_for}

-- The gross amount that is stored is one that the database keeps.
assert_persistable_computation-IsAmount :
    (c : TaxComputation) (db db' : Db) (done : Unit {0})
    → assert_persistable_computation c db ≡ ok (done, db')
    → IsAmount c.gross_minor × (db' ≡ db)
unfolding assert_persistable_computation
assert_persistable_computation-IsAmount c db db' done h =
    elim (Result-cases (assert_database_int c.gross_minor)) [
      | inl (e, thrown) ↦ absurd (ground arith)
      | inr (gross, passed) ↦
          let in_range = (assert_database_int_iff c.gross_minor gross).0 passed in
          ((in_range.1, in_range.2), ground arith)
    ]

-- A row of a new id.
snoc-UniqueIds :
    (is : List Invoice) (i : Invoice)
    → UniqueIds is
    → All (λ (j : Invoice). j.id < i.id) is
    → UniqueIds (is ++ i ∷ [])
snoc-UniqueIds [] i unique fresh = (tt, tt)
snoc-UniqueIds (j ∷ is) i unique fresh =
    let less = fresh.0 in
    (
      All-append (λ (k : Invoice). (k.id == j.id) ≡ false) is (i ∷ []) unique.0 (ground arith, tt),
      snoc-UniqueIds is i unique.1 fresh.1,
    )

abbrev added : Invoice → Db → Db
added i db = record db { invoices = db.invoices ++ i ∷ []; next_id = suc db.next_id }

added-Ledger :
    (po : PurchaseOrder) (i : Invoice) (db : Db)
    → Ledger po db
    → i.id ≡ db.next_id
    → IsAmount i.amount_minor
    → Ledger po (added i db)
added-Ledger po i db ledger next amount = record {
  found = ledger.found;
  unique = snoc-UniqueIds db.invoices i ledger.unique (rw next ledger.fresh);
  amounts =
      All-append (λ (j : Invoice). IsAmount j.amount_minor) db.invoices (i ∷ []) ledger.amounts
        (amount, tt);
  fresh =
      All-append (λ (j : Invoice). j.id < suc db.next_id) db.invoices (i ∷ [])
        (All-imp {Q = λ (j : Invoice). j.id < suc db.next_id} (λ j h. omega (arith, h)) db.invoices
          ledger.fresh)
        (omega (arith, next), tt);
  prices = ledger.prices;
  quantities = ledger.quantities;
}

-- An invoice that does not hold value changes nothing of it.
added-idle :
    (po : PurchaseOrder) (i : Invoice) (db : Db)
    → holds_value i.status ≡ false
    → IsCovered po db
    → IsCovered po (added i db)
unfolding allocated_value received_value
added-idle po i db idle covered =
    rw (held-snoc_not (allocates po.id none) db.invoices i (ground arith)) covered

allocated-snoc :
    (po : PurchaseOrder) (i : Invoice) (db : Db)
    → pos 0 ≤ℤ i.amount_minor
    → allocated_value po.id none (added i db) ≤ℤ allocated_value po.id none db +ℤ i.amount_minor
unfolding allocated_value
allocated-snoc po i db positive = held-snoc (allocates po.id none) db.invoices i positive

added-matched :
    (po : PurchaseOrder) (i : Invoice) (db : Db)
    → Ledger po db
    → IsAmount i.amount_minor
    → Covers i.amount_minor (received_value po db -ℤ allocated_value po.id none db)
    → IsCovered po (added i db)
unfolding received_value
added-matched po i db ledger amount covers =
    Covers-add i.amount_minor (received_value po db) (allocated_value po.id none db)
      (allocated_value po.id none (added i db)) covers (allocated_value-nonneg po none db ledger)
      (allocated-snoc po i db amount.0)

registered_match-Covers :
    (ratio_bps : ℕ → ℕ → ℕ) (input : RegisterInvoiceInput) (gross : ℤ) (po : PurchaseOrder)
    (db : Db)
    → Rounds ratio_bps
    → Ledger po db
    → IsAmount gross
    → holds_value (status_of (registered_match_for ratio_bps (some po.id) input gross db)) ≡ true
    → Covers gross (received_value po db -ℤ allocated_value po.id none db)
registered_match-Covers ratio_bps input gross po db rounds ledger amount holds =
    let matching : MatchInput = record {
      po_id = po.id;
      vendor_id = input.vendor_id;
      total_minor = gross;
      currency_code = or_else input.currency_code (units "PHP");
      allow_partial = input.allow_partial;
    } in
    let result = match_against_po ratio_bps matching none db in
    let (order, sound) =
      match_against_po-matched ratio_bps matching none db rounds amount
        (holds_value-status_for result.outcome holds) in
    let one : order ≡ po = let a = sound.found in let b = ledger.found in cc in
    subst (λ p. Covers gross (received_value p db -ℤ allocated_value p.id none db)) one
      sound.covered

-- What the new row leaves, with its events.
register_new-written :
    (ratio_bps : ℕ → ℕ → ℕ) (input : RegisterInvoiceInput) (c : TaxComputation) (now : ℕ)
    (db db' : Db) (registered : Invoice × Option MatchResult)
    → register_new ratio_bps input c now db ≡ ok (registered, db')
    → SameTables
        (added
          (new_invoice ratio_bps input c now db.next_id
            (registered_match ratio_bps input c.gross_minor db))
          db)
        db'
unfolding register_new insert_invoice emit_status_events
register_new-written ratio_bps input c now db db' registered h = record {
  orders = ground arith;
  invoices = ground arith;
  receipts = ground arith;
  next_id = ground arith;
  approvals = ground arith;
  budgets = ground arith;
  requisitions = ground arith;
}

register_new-IsCovered :
    (ratio_bps : ℕ → ℕ → ℕ) (input : RegisterInvoiceInput) (c : TaxComputation) (now : ℕ)
    (po : PurchaseOrder) (db db' : Db) (registered : Invoice × Option MatchResult)
    → Rounds ratio_bps
    → Ledger po db
    → IsCovered po db
    → input.po_id ≡ some po.id
    → IsAmount c.gross_minor
    → register_new ratio_bps input c now db ≡ ok (registered, db')
    → Ledger po db' × IsCovered po db'
register_new-IsCovered ratio_bps input c now po db db' registered rounds ledger covered of amount
      h =
    let result = registered_match ratio_bps input c.gross_minor db in
    let row = new_invoice ratio_bps input c now db.next_id result in
    let same = register_new-written ratio_bps input c now db db' registered h in
    let after : IsCovered po (added row db) = elim (Bool-cases (holds_value row.status)) [
      | inl holds ↦ added-matched po row db ledger amount (
          registered_match-Covers ratio_bps input c.gross_minor po db rounds ledger amount (
            subst
              (λ id.
                holds_value (status_of (registered_match_for ratio_bps id input c.gross_minor db))
                ≡ true)
              of holds))
      | inr idle ↦ added-idle po row db idle covered
    ] in
    (
      SameTables-Ledger po (added row db) db' same (added-Ledger po row db ledger refl amount),
      SameTables-IsCovered po (added row db) db' same after,
    )

-- Given that the rounded ratio in basis points is a nearest one: from well-formed tables in which
-- the matched and paid invoices of an order sum to at most 1.05005 times the value of its
-- receipts, a registration for that order that goes through leads to such tables again, the new
-- invoice's own match included.
pub register-IsCovered :
    (ratio_bps : ℕ → ℕ → ℕ) (tax : Result TaxPolicyConfig) (input : RegisterInvoiceInput) (now : ℕ)
    (po : PurchaseOrder) (db db' : Db) (registered : Invoice × Option MatchResult)
    → Rounds ratio_bps
    → Ledger po db
    → IsCovered po db
    → input.po_id ≡ some po.id
    → register ratio_bps tax input now db ≡ ok (registered, db')
    → Ledger po db' × IsCovered po db'
unfolding register
register-IsCovered ratio_bps (err e) input now po db db' registered rounds ledger covered of h =
    absurd (ground arith)
register-IsCovered ratio_bps (ok config) input now po db db' registered rounds ledger covered of h =
    let c = compute_tax input.lines config in
    elim (Result-cases (assert_persistable_computation c db)) [
      | inl (e, thrown) ↦ absurd (ground arith)
      | inr ((done, next), passed) ↦
          let (amount, unchanged) = assert_persistable_computation-IsAmount c db next done passed in
          elim (Option-cases (find? (is_same_invoice input) db.invoices)) [
            | inl new ↦
                register_new-IsCovered ratio_bps input c now po db db' registered rounds ledger
                  covered of amount (ground arith)
            | inr (old, found) ↦
                let e : db ≡ db' = ground arith in
                subst (λ d. Ledger po d × IsCovered po d) e (ledger, covered)
          ]
    ]
