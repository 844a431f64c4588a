-- ===== src/Invoice/Coverage/Correct.antt =====
-- One step of `reevaluateMatchedForPo`, apps/api/src/invoice/invoice.service.ts: either the order is
-- covered, or the invoices that hold value are among those that are still to come.
use aipms.Prelude.{
  ℕ, ◌≡◌, refl, sym, subst, ◌⊎◌, Bool, true, false, none, some, List, [], ◌∷◌, inl, inr, arith,
  Bool-cases, ok, Result-cases, update_where, any, ◌==◌, All, if◌then◌else◌,
}
use aipms.Database.{Db, PurchaseOrder, Invoice, MatchOutcome, MatchResult}
use aipms.Invoice.Match.{match_against_po, allocates, holds_value}
use aipms.Invoice.Match.Laws.{Rounds}
use aipms.Invoice.Register.{status_for, emit_status_events}
use aipms.Invoice.Rematch.{
  match_input, set_match, set_match_result, is_matched_outcome, update_invoice, ReevaluateSummary,
  keep_or_demote, reevaluate_one,
}
use aipms.Invoice.Coverage.Held.{held, has_id}
use aipms.Invoice.Coverage.Ledger.{
  Ledger, IsCovered, SameTables, SameTables-refl, SameTables-IsCovered,
}
use aipms.Invoice.Coverage.Write.{Keeps}
use aipms.Invoice.Coverage.Outcome.{
  emit_status_events-SameTables, set_match-Keeps, matched-IsCovered, demoted-IsCovered,
}
use aipms.Invoice.Coverage.Known.{Known}

-- The write of a match that is made again.
abbrev pub reevaluated : MatchResult → Invoice → Invoice
reevaluated result =
    if is_matched_outcome result.outcome
    then set_match_result result
    else set_match (status_for result.outcome) result

pub reevaluated-Keeps : (result : MatchResult) → Keeps (reevaluated result)
reevaluated-Keeps result = elim (Bool-cases (is_matched_outcome result.outcome)) [
  | inl matched ↦ rw matched (record { id_same = λ i. refl; amount_same = λ i. refl })
  | inr demoted ↦ rw demoted (set_match-Keeps (status_for result.outcome) result)
]

keep_or_demote-written :
    (ratio_bps : ℕ → ℕ → ℕ) (i : Invoice) (result : MatchResult)
    (before summary : ReevaluateSummary) (db db' : Db)
    → keep_or_demote ratio_bps i result before db ≡ ok (summary, db')
    → SameTables (update_invoice i.id (reevaluated result) db) db'
unfolding keep_or_demote
keep_or_demote-written ratio_bps i result before summary db db' h =
    elim (Bool-cases (is_matched_outcome result.outcome)) [
      | inl matched ↦
          let written = update_invoice i.id (set_match_result result) db in
          let same : written ≡ db' = ground arith in
          rw matched (subst (SameTables written) same (SameTables-refl written))
      | inr demoted ↦
          let written = update_invoice i.id (set_match (status_for result.outcome) result) db in
          elim (Result-cases (emit_status_events i.id (status_for result.outcome) written)) [
            | inl (e, thrown) ↦ absurd (ground arith)
            | inr ((done, after), e) ↦
                let same : after ≡ db' = ground arith in
                rw demoted (
                  subst (SameTables written) same (
                    emit_status_events-SameTables i.id (status_for result.outcome) written after
                      done e))
          ]
    ]

pub reevaluate_one-written :
    (ratio_bps : ℕ → ℕ → ℕ) (po_id : ℕ) (i : Invoice) (before summary : ReevaluateSummary)
    (db db' : Db)
    → reevaluate_one ratio_bps po_id i before db ≡ ok (summary, db')
    → let result = match_against_po ratio_bps (match_input po_id i) (some i.id) db in
      SameTables (update_invoice i.id (reevaluated result) db) db'
unfolding reevaluate_one
reevaluate_one-written ratio_bps po_id i before summary db db' h =
    let result = match_against_po ratio_bps (match_input po_id i) (some i.id) db in
    keep_or_demote-written ratio_bps i result before summary db db' h

-- The invoices that hold value of an order are among those of a list, by their ids.
abbrev pub listed : List Invoice → Invoice → Bool
listed is i = any (λ (j : Invoice). j.id == i.id) is

abbrev pub HeldBy : PurchaseOrder → List Invoice → Db → Type 0
HeldBy po is db =
    All (λ (i : Invoice). allocates po.id none i ≡ true → listed is i ≡ true) db.invoices

-- Covered already, or to be covered when the rest of the list is done.
abbrev pub Remains : PurchaseOrder → List Invoice → Db → Type 0
Remains po is db = IsCovered po db ⊎ HeldBy po is db

is_matched_outcome→eq :
    (outcome : MatchOutcome) → is_matched_outcome outcome ≡ true → outcome ≡ MatchOutcome.matched
is_matched_outcome→eq outcome h = ground arith

demoted-holds :
    (result : MatchResult) (i : Invoice)
    → is_matched_outcome result.outcome ≡ false
    → holds_value (reevaluated result i).status ≡ false
unfolding status_for
demoted-holds result i demoted = rw demoted (ground arith)

update_where-listed :
    (p : Invoice → Bool) (i : Invoice) (is : List Invoice) (f : Invoice → Invoice)
    (rows : List Invoice)
    → ((j : Invoice) → p (f j) ≡ false)
    → All (λ (j : Invoice). p j ≡ true → listed (i ∷ is) j ≡ true) rows
    → All (λ (j : Invoice). p j ≡ true → listed is j ≡ true) (update_where (has_id i.id) f rows)
update_where-listed p i is f [] out h = tt
update_where-listed p i is f (row ∷ rows) out h =
    let rest = update_where-listed p i is f rows out h.1 in
    elim (Bool-cases (row.id == i.id)) [
      | inl hit ↦ rw hit (λ holds. let fails = out row in absurd (ground arith), rest)
      | inr miss ↦ rw miss (λ holds. let among = h.0 holds in ground arith, rest)
    ]

demoted-HeldBy :
    (po : PurchaseOrder) (i : Invoice) (is : List Invoice) (f : Invoice → Invoice) (db : Db)
    → ((j : Invoice) → holds_value (f j).status ≡ false)
    → HeldBy po (i ∷ is) db
    → HeldBy po is (update_invoice i.id f db)
demoted-HeldBy po i is f db out h =
    update_where-listed (allocates po.id none) i is f db.invoices
      (λ j. let fails = out j in ground arith) h

pub SameTables-Remains :
    (po : PurchaseOrder) (is : List Invoice) (db db' : Db)
    → SameTables db db'
    → Remains po is db
    → Remains po is db'
SameTables-Remains po is db db' same (inl covered) =
    inl (SameTables-IsCovered po db db' same covered)
SameTables-Remains po is db db' same (inr held_by) = inr (
    subst (All (λ (i : Invoice). allocates po.id none i ≡ true → listed is i ≡ true))
      (sym same.invoices) held_by)

pub reevaluate_one-Remains :
    (ratio_bps : ℕ → ℕ → ℕ) (po : PurchaseOrder) (i : Invoice) (is : List Invoice) (db : Db)
    → Rounds ratio_bps
    → Ledger po db
    → Known db i
    → Remains po (i ∷ is) db
    → let result = match_against_po ratio_bps (match_input po.id i) (some i.id) db in
      Remains po is (update_invoice i.id (reevaluated result) db)
reevaluate_one-Remains ratio_bps po i is db rounds ledger known remains =
    let result = match_against_po ratio_bps (match_input po.id i) (some i.id) db in
    elim (Bool-cases (is_matched_outcome result.outcome)) [
      | inl matched ↦ inl (
          matched-IsCovered ratio_bps po i (some i.id) db rounds ledger known.0 known.1
            (omega arith) (is_matched_outcome→eq result.outcome matched) (reevaluated result)
            (reevaluated-Keeps result))
      | inr demoted ↦
          let out = λ (j : Invoice). demoted-holds result j demoted in
          elim remains [
            | inl covered ↦
                inl (demoted-IsCovered po i.id db ledger covered (reevaluated result) out)
            | inr held ↦ inr (demoted-HeldBy po i is (reevaluated result) db out held)
          ]
    ]
