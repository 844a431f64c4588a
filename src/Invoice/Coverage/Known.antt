-- ===== src/Invoice/Coverage/Known.antt =====
-- Invoices as they were read, along the writes to others; and all invoices of a table as read from it.
use aipms.Prelude.{
  ℕ, ◌≡◌, refl, sym, subst, Bool, true, List, [], ◌∷◌, inl, inr, arith, Bool-cases, filter, ◌==◌,
  All, All-imp, All-imp₂,
}
use aipms.Database.{Db, PurchaseOrder, Invoice}
use aipms.Invoice.Match.Laws.{IsAmount}
use aipms.Invoice.Rematch.{insert_by, sort_by, update_invoice}
use aipms.Invoice.Coverage.Held.{UniqueIds}
use aipms.Prelude.Rows.{All-filter}
use aipms.Invoice.Coverage.Ledger.{Ledger, SameTables}
use aipms.Invoice.Coverage.Write.{Keeps, HasAmount, update_invoice-HasAmount}

-- An invoice as it was read, of which the rows of its id keep the amount.
abbrev pub Known : Db → Invoice → Type 0
Known db i = HasAmount i db × IsAmount i.amount_minor

pub SameTables-Known :
    (db db' : Db) (is : List Invoice) → SameTables db db' → All (Known db) is → All (Known db') is
SameTables-Known db db' is same h =
    All-imp {P = Known db} {Q = Known db'}
      (λ i k. (
        subst (All (λ (j : Invoice). (j.id == i.id) ≡ true → j.amount_minor ≡ i.amount_minor))
            (sym same.invoices) k.0,
        k.1,
      ))
      is h

pub update_invoice-Known :
    (id : ℕ) (f : Invoice → Invoice) (db : Db) (is : List Invoice)
    → Keeps f
    → All (Known db) is
    → All (Known (update_invoice id f db)) is
update_invoice-Known id f db is keeps h =
    All-imp {P = Known db} {Q = Known (update_invoice id f db)}
      (λ i k. (update_invoice-HasAmount i id f db keeps k.0, k.1)) is h

UniqueIds-amounts :
    (is : List Invoice)
    → UniqueIds is
    → All
        (λ (i : Invoice).
          All (λ (j : Invoice). (j.id == i.id) ≡ true → j.amount_minor ≡ i.amount_minor) is)
        is
UniqueIds-amounts [] unique = tt
UniqueIds-amounts (i ∷ is) unique = (
  (
    λ hit. refl,
    All-imp {Q = λ (j : Invoice). (j.id == i.id) ≡ true → j.amount_minor ≡ i.amount_minor}
        (λ j other hit. absurd (ground arith)) is unique.0,
  ),
  All-imp₂
      {R = λ (k : Invoice).
        All (λ (j : Invoice). (j.id == k.id) ≡ true → j.amount_minor ≡ k.amount_minor) (i ∷ is)}
      (λ k other rest. (λ hit. absurd (ground arith), rest)) is unique.0
      (UniqueIds-amounts is unique.1),
)

-- Every row of a well-formed table.
pub Ledger-Known : (po : PurchaseOrder) (db : Db) → Ledger po db → All (Known db) db.invoices
Ledger-Known po db ledger =
    All-imp₂ {R = Known db} (λ i same amount. (same, amount)) db.invoices
      (UniqueIds-amounts db.invoices ledger.unique) ledger.amounts

All-insert_by :
    (P : Invoice → Type 0) (before : Invoice → Invoice → Bool) (i : Invoice) (is : List Invoice)
    → P i
    → All P is
    → All P (insert_by before i is)
unfolding insert_by
All-insert_by P before i [] h k = (h, tt)
All-insert_by P before i (j ∷ is) h k = elim (Bool-cases (before j i)) [
  | inl first ↦ rw first (k.0, All-insert_by P before i is h k.1)
  | inr later ↦ rw later (h, k)
]

pub All-sort_by :
    (P : Invoice → Type 0) (before : Invoice → Invoice → Bool) (is : List Invoice)
    → All P is
    → All P (sort_by before is)
unfolding sort_by
All-sort_by P before [] h = tt
All-sort_by P before (i ∷ is) h =
    All-insert_by P before i (sort_by before is) h.0 (All-sort_by P before is h.1)

-- The rows that a query reads, in its order.
pub sorted-Known :
    (po : PurchaseOrder) (before : Invoice → Invoice → Bool) (p : Invoice → Bool) (db : Db)
    → Ledger po db
    → All (Known db) (sort_by before (filter p db.invoices))
sorted-Known po before p db ledger =
    All-sort_by (Known db) before (filter p db.invoices)
      (All-filter (Known db) p db.invoices (Ledger-Known po db ledger))
