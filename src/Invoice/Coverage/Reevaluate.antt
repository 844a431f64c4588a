-- ===== src/Invoice/Coverage/Reevaluate.antt =====
-- A correction makes the matches of an order again: `reevaluateMatchedForPo` of
-- apps/api/src/invoice/invoice.service.ts leaves the order covered, whatever it was before.
use aipms.Prelude.{
  ℕ, ◌≡◌, refl, sym, subst, ◌∙◌, Bool, true, false, ◌&&◌, ◌||◌, none, some, List, [], ◌∷◌, inl, inr,
  arith, Bool-cases, ok, Result-cases, any, filter, All, All-imp₂, ==-refl, is_ref, length,
}
use aipms.Prelude.Rows.{any-filter, All-filter, All-any, All-any-false}
use aipms.Prelude.Int.{sum_of, pos}
use aipms.Database.{Db, PurchaseOrder, Invoice, is_matched, is_invoice_paid}
use aipms.Invoice.Match.{match_against_po, allocated_value, allocates}
use aipms.Invoice.Match.Laws.{Rounds}
use aipms.Invoice.Rematch.{
  insert_by, sort_by, by_received_and_id, match_input, update_invoice, ReevaluateSummary,
  reevaluate_one, reevaluate_loop, reevaluate_matched_for_po, assert_po_correction_allowed,
}
use aipms.Invoice.Coverage.Held.{held, has_id}
use aipms.Invoice.Coverage.Ledger.{
  Untouched, Untouched-refl, Untouched-step, Ledger, received_value-nonneg, IsCovered,
  SameTables-Ledger,
}
use aipms.Invoice.Coverage.Write.{update_invoice-Ledger}
use aipms.Invoice.Coverage.Known.{Known, SameTables-Known, update_invoice-Known, sorted-Known}
use aipms.Invoice.Coverage.Correct.{
  reevaluated, reevaluated-Keeps, reevaluate_one-written, listed, HeldBy, Remains,
  SameTables-Remains, reevaluate_one-Remains,
}

held_none :
    (p : Invoice → Bool) (rows : List Invoice)
    → All (λ (i : Invoice). p i ≡ true → false ≡ true) rows
    → held p rows ≡ pos 0
unfolding sum_of
held_none p [] h = refl
held_none p (i ∷ rows) h = elim (Bool-cases (p i)) [
  | inl passes ↦ let impossible = h.0 passes in absurd (ground arith)
  | inr fails ↦ rw fails (held_none p rows h.1)
]

Remains-IsCovered :
    (po : PurchaseOrder) (db : Db) → Ledger po db → Remains po [] db → IsCovered po db
unfolding allocated_value
Remains-IsCovered po db ledger (inl covered) = covered
Remains-IsCovered po db ledger (inr held_by) =
    let nothing = held_none (allocates po.id none) db.invoices held_by in
    let received = received_value-nonneg po db ledger in rw nothing (omega (arith, received))

reevaluate_loop-IsCovered :
    (ratio_bps : ℕ → ℕ → ℕ) (po : PurchaseOrder) (is : List Invoice)
    (before summary : ReevaluateSummary) (db db' : Db)
    → Rounds ratio_bps
    → Ledger po db
    → All (Known db) is
    → Remains po is db
    → reevaluate_loop ratio_bps po.id is before db ≡ ok (summary, db')
    → Ledger po db' × IsCovered po db'
unfolding reevaluate_loop
reevaluate_loop-IsCovered ratio_bps po [] before summary db db' rounds ledger known remains h =
    let same : db ≡ db' = ground arith in
    (
      subst (Ledger po) same ledger,
      subst (IsCovered po) same (Remains-IsCovered po db ledger remains),
    )
reevaluate_loop-IsCovered ratio_bps po (i ∷ is) before summary db db' rounds ledger known remains
      h =
    let result = match_against_po ratio_bps (match_input po.id i) (some i.id) db in
    let written = update_invoice i.id (reevaluated result) db in
    elim (Result-cases (reevaluate_one ratio_bps po.id i before db)) [
      | inl (e, thrown) ↦ absurd (ground arith)
      | inr ((next_summary, next), e) ↦
          let same = reevaluate_one-written ratio_bps po.id i before next_summary db next e in
          let keeps = reevaluated-Keeps result in
          reevaluate_loop-IsCovered ratio_bps po is next_summary summary next db' rounds
            (SameTables-Ledger po written next same
              (update_invoice-Ledger po i.id (reevaluated result) db keeps ledger))
            (SameTables-Known written next is same
              (update_invoice-Known i.id (reevaluated result) db is keeps known.1))
            (SameTables-Remains po is written next same
              (reevaluate_one-Remains ratio_bps po i is db rounds ledger known.0 remains))
            (ground arith)
    ]

any-insert_by :
    (p : Invoice → Bool) (before : Invoice → Invoice → Bool) (i : Invoice) (is : List Invoice)
    → any p (insert_by before i is) ≡ (p i || any p is)
unfolding insert_by
any-insert_by p before i [] = refl
any-insert_by p before i (j ∷ is) = ground (arith, any-insert_by p before i is)

any-sort_by :
    (p : Invoice → Bool) (before : Invoice → Invoice → Bool) (is : List Invoice)
    → any p (sort_by before is) ≡ any p is
unfolding sort_by
any-sort_by p before [] = refl
any-sort_by p before (i ∷ is) =
    rw (any-insert_by p before i (sort_by before is)) (rw (any-sort_by p before is) refl)

abbrev pub of_order : ℕ → Invoice → Bool
of_order po_id i = is_ref po_id i.po_id

abbrev pub sorted_of_order : ℕ → Db → List Invoice
sorted_of_order po_id db = sort_by by_received_and_id (filter (of_order po_id) db.invoices)

-- A correction is allowed only where no invoice of the order is paid.
pub assert_po_correction_allowed-unpaid :
    (po_id : ℕ) (is : List Invoice) (db db' : Db)
    → assert_po_correction_allowed po_id db ≡ ok (is, db')
    → (db' ≡ db)
      × (is ≡ sorted_of_order po_id db)
      × (any (λ (i : Invoice). is_invoice_paid i.status) (sorted_of_order po_id db) ≡ false)
unfolding assert_po_correction_allowed
assert_po_correction_allowed-unpaid po_id is db db' h = (ground arith, ground arith, ground arith)

pub unpaid-any :
    (po_id : ℕ) (db : Db)
    → any (λ (i : Invoice). is_invoice_paid i.status) (sorted_of_order po_id db) ≡ false
    → any (λ (i : Invoice). of_order po_id i && is_invoice_paid i.status) db.invoices ≡ false
unpaid-any po_id db unpaid =
    let paid = λ (i : Invoice). is_invoice_paid i.status in
    sym (any-filter (of_order po_id) paid db.invoices)
    ∙ sym (any-sort_by paid by_received_and_id (filter (of_order po_id) db.invoices))
    ∙ unpaid

-- Then the matched invoices are all that hold value of it.
matched-HeldBy :
    (po : PurchaseOrder) (db : Db)
    → any (λ (i : Invoice). is_invoice_paid i.status) (sorted_of_order po.id db) ≡ false
    → HeldBy po (filter (λ (i : Invoice). is_matched i.status) (sorted_of_order po.id db)) db
matched-HeldBy po db unpaid =
    let ours = of_order po.id in
    let paid = λ (i : Invoice). is_invoice_paid i.status in
    let still = λ (i : Invoice). is_matched i.status in
    All-imp₂
      {R = λ (i : Invoice).
        allocates po.id none i ≡ true → listed (filter still (sorted_of_order po.id db)) i ≡ true}
      (λ i among is_unpaid holds.
        any-filter still (has_id i.id) (sorted_of_order po.id db)
        ∙ any-sort_by (λ j. still j && has_id i.id j) by_received_and_id (filter ours db.invoices)
        ∙ any-filter ours (λ j. still j && has_id i.id j) db.invoices
        ∙ among (λ j. ours j && (still j && has_id i.id j)) (ground (arith, ==-refl i.id)))
      db.invoices (All-any db.invoices)
      (All-any-false (λ i. ours i && paid i) db.invoices (unpaid-any po.id db unpaid))

pub reevaluate_matched_for_po-IsCovered :
    (ratio_bps : ℕ → ℕ → ℕ) (po : PurchaseOrder) (summary : ReevaluateSummary) (db db' : Db)
    → Rounds ratio_bps
    → Ledger po db
    → reevaluate_matched_for_po ratio_bps po.id db ≡ ok (summary, db')
    → Ledger po db' × IsCovered po db'
unfolding reevaluate_matched_for_po
reevaluate_matched_for_po-IsCovered ratio_bps po summary db db' rounds ledger h =
    elim (Result-cases (assert_po_correction_allowed po.id db)) [
      | inl (e, thrown) ↦ absurd (ground arith)
      | inr ((is, next), e) ↦
          let (unchanged, read, unpaid) = assert_po_correction_allowed-unpaid po.id is db next e in
          let still = λ (i : Invoice). is_matched i.status in
          let matched = filter still (sorted_of_order po.id db) in
          reevaluate_loop-IsCovered ratio_bps po matched
            (record { considered = length matched; kept = 0; demoted = 0 }) summary db db' rounds
            ledger
            (All-filter (Known db) still (sorted_of_order po.id db)
              (sorted-Known po by_received_and_id (of_order po.id) db ledger))
            (inr (matched-HeldBy po db unpaid)) (ground arith)
    ]

reevaluate_loop-Untouched :
    (ratio_bps : ℕ → ℕ → ℕ) (po_id : ℕ) (is : List Invoice) (before summary : ReevaluateSummary)
    (db db' : Db)
    → reevaluate_loop ratio_bps po_id is before db ≡ ok (summary, db')
    → Untouched db db'
unfolding reevaluate_loop
reevaluate_loop-Untouched ratio_bps po_id [] before summary db db' h =
    let same : db ≡ db' = ground arith in subst (Untouched db) same (Untouched-refl db)
reevaluate_loop-Untouched ratio_bps po_id (i ∷ is) before summary db db' h =
    elim (Result-cases (reevaluate_one ratio_bps po_id i before db)) [
      | inl (e, thrown) ↦ absurd (ground arith)
      | inr ((next_summary, next), e) ↦
          let result = match_against_po ratio_bps (match_input po_id i) (some i.id) db in
          Untouched-step i.id (reevaluated result) db next db'
            (reevaluate_one-written ratio_bps po_id i before next_summary db next e)
            (reevaluate_loop-Untouched ratio_bps po_id is next_summary summary next db'
              (ground arith))
    ]

pub reevaluate_matched_for_po-Untouched :
    (ratio_bps : ℕ → ℕ → ℕ) (po_id : ℕ) (summary : ReevaluateSummary) (db db' : Db)
    → reevaluate_matched_for_po ratio_bps po_id db ≡ ok (summary, db')
    → Untouched db db'
unfolding reevaluate_matched_for_po
reevaluate_matched_for_po-Untouched ratio_bps po_id summary db db' h =
    elim (Result-cases (assert_po_correction_allowed po_id db)) [
      | inl (e, thrown) ↦ absurd (ground arith)
      | inr ((is, next), e) ↦
          let (unchanged, read, unpaid) = assert_po_correction_allowed-unpaid po_id is db next e in
          let matched = filter (λ (i : Invoice). is_matched i.status) is in
          subst (λ d. Untouched d db') unchanged
            (reevaluate_loop-Untouched ratio_bps po_id matched
              (record { considered = length matched; kept = 0; demoted = 0 }) summary next db'
              (ground arith))
    ]
