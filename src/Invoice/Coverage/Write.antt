-- ===== src/Invoice/Coverage/Write.antt =====
-- A write to one invoice: the ledger stays well-formed, and what is allocated is at most what the
-- other invoices hold and the amount.
use aipms.Prelude.{
  ℕ, ◌<◌, ◌≡◌, refl, true, false, none, some, List, [], ◌∷◌, inl, inr, arith, Bool-cases,
  update_where, ◌==◌, All, All-imp, All-of,
}
use aipms.Prelude.Int.{ℤ, int_laws, pos, ◌+ℤ◌, ◌≤ℤ◌}
use aipms.Prelude.Rows.{All-update_where}
use aipms.Database.{Db, PurchaseOrder, Invoice}
use aipms.Invoice.Match.{received_value, allocated_value, allocates, holds_value}
use aipms.Invoice.Match.Laws.{IsAmount}
use aipms.Invoice.Rematch.{update_invoice}
use aipms.Invoice.Coverage.Held.{
  amount, held, UniqueIds, has_id, but, held_mono, held-update, held-update_out,
}
use aipms.Invoice.Coverage.Ledger.{Ledger, NonNegative-of}

-- A write that keeps the id and the amount.
pub record Keeps (f : Invoice → Invoice) : Type 0 where
  pub id_same : (i : Invoice) → (f i).id ≡ i.id
  pub amount_same : (i : Invoice) → (f i).amount_minor ≡ i.amount_minor

-- Every row of the id has the amount.
abbrev pub HasAmount : Invoice → Db → Type 0
HasAmount i db = All (λ (j : Invoice). (j.id == i.id) ≡ true → amount j ≡ amount i) db.invoices

update_where-others :
    (k id : ℕ) (f : Invoice → Invoice) (is : List Invoice)
    → Keeps f
    → All (λ (j : Invoice). (j.id == k) ≡ false) is
    → All (λ (j : Invoice). (j.id == k) ≡ false) (update_where (has_id id) f is)
update_where-others k id f is keeps h =
    All-update_where (λ (j : Invoice). (j.id == k) ≡ false) (has_id id) f is h
      (All-of
        {P = λ (j : Invoice). (j.id == id) ≡ true → (j.id == k) ≡ false → ((f j).id == k) ≡ false}
        (λ j hit other. rw (keeps.id_same j) other) is)

update_where-UniqueIds :
    (id : ℕ) (f : Invoice → Invoice) (is : List Invoice)
    → Keeps f
    → UniqueIds is
    → UniqueIds (update_where (has_id id) f is)
update_where-UniqueIds id f [] keeps unique = tt
update_where-UniqueIds id f (i ∷ is) keeps unique =
    let rest = update_where-UniqueIds id f is keeps unique.1 in
    let others = update_where-others i.id id f is keeps unique.0 in
    elim (Bool-cases (i.id == id)) [
      | inl hit ↦ rw (hit, keeps.id_same i) (others, rest)
      | inr miss ↦ rw miss (others, rest)
    ]

pub update_invoice-Ledger :
    (po : PurchaseOrder) (id : ℕ) (f : Invoice → Invoice) (db : Db)
    → Keeps f
    → Ledger po db
    → Ledger po (update_invoice id f db)
update_invoice-Ledger po id f db keeps ledger = record {
  found = ledger.found;
  unique = update_where-UniqueIds id f db.invoices keeps ledger.unique;
  amounts =
      All-update_where (λ (i : Invoice). IsAmount i.amount_minor) (has_id id) f db.invoices
        ledger.amounts
        (All-of
          {P = λ (j : Invoice).
            (j.id == id) ≡ true → IsAmount j.amount_minor → IsAmount (f j).amount_minor}
          (λ j hit h. rw (keeps.amount_same j) h) db.invoices);
  fresh =
      All-update_where (λ (i : Invoice). i.id < db.next_id) (has_id id) f db.invoices ledger.fresh
        (All-of
          {P = λ (j : Invoice). (j.id == id) ≡ true → j.id < db.next_id → (f j).id < db.next_id}
          (λ j hit h. rw (keeps.id_same j) h) db.invoices);
  prices = ledger.prices;
  quantities = ledger.quantities;
}

pub update_invoice-HasAmount :
    (i : Invoice) (id : ℕ) (f : Invoice → Invoice) (db : Db)
    → Keeps f
    → HasAmount i db
    → HasAmount i (update_invoice id f db)
update_invoice-HasAmount i id f db keeps h =
    All-update_where (λ (j : Invoice). (j.id == i.id) ≡ true → amount j ≡ amount i) (has_id id) f
      db.invoices h
      (All-of
        {P = λ (j : Invoice).
          (j.id == id) ≡ true
          → ((j.id == i.id) ≡ true → amount j ≡ amount i)
          → ((f j).id == i.id) ≡ true
          → amount (f j) ≡ amount i}
        (λ j hit same. rw (keeps.id_same j, keeps.amount_same j) same) db.invoices)

-- What the others hold is what is allocated when the invoice is left out.
but-allocates :
    (po : PurchaseOrder) (id : ℕ) (db : Db)
    → Ledger po db
    → held (but id (allocates po.id none)) db.invoices ≤ℤ allocated_value po.id (some id) db
unfolding allocated_value
but-allocates po id db ledger =
    held_mono (but id (allocates po.id none)) (allocates po.id (some id)) db.invoices
      (NonNegative-of db.invoices ledger.amounts)
      (All-of
        {P = λ (j : Invoice).
          but id (allocates po.id none) j ≡ true → allocates po.id (some id) j ≡ true}
        (λ j h. ground arith) db.invoices)

pub allocated_value-left_out :
    (po : PurchaseOrder) (id : ℕ) (db : Db)
    → Ledger po db
    → allocated_value po.id (some id) db ≤ℤ allocated_value po.id none db
unfolding allocated_value
allocated_value-left_out po id db ledger =
    held_mono (allocates po.id (some id)) (allocates po.id none) db.invoices
      (NonNegative-of db.invoices ledger.amounts)
      (All-of
        {P = λ (j : Invoice). allocates po.id (some id) j ≡ true → allocates po.id none j ≡ true}
        (λ j h. ground arith) db.invoices)

pub ≤ℤ_trans : (a b c : ℤ) → a ≤ℤ b → b ≤ℤ c → a ≤ℤ c
≤ℤ_trans a b c h k = omega (arith, h, k)

pub ≤ℤ_trans_add : (a b c t : ℤ) → a ≤ℤ b +ℤ t → b ≤ℤ c → a ≤ℤ c +ℤ t
≤ℤ_trans_add a b c t h k = omega (int_laws, h, k)

pub update_invoice-allocated :
    (po : PurchaseOrder) (i : Invoice) (f : Invoice → Invoice) (db : Db)
    → Ledger po db
    → Keeps f
    → HasAmount i db
    → pos 0 ≤ℤ amount i
    → allocated_value po.id none (update_invoice i.id f db)
      ≤ℤ allocated_value po.id (some i.id) db +ℤ amount i
unfolding allocated_value
update_invoice-allocated po i f db ledger keeps same positive =
    let others = but-allocates po i.id db ledger in
    let written =
      held-update i.id (allocates po.id none) f (amount i) db.invoices ledger.unique positive (
        All-imp {Q = λ (j : Invoice). (j.id == i.id) ≡ true → amount (f j) ≡ amount i}
          (λ j h hit. rw (keeps.amount_same j) (h hit)) db.invoices same) in
    ≤ℤ_trans_add (allocated_value po.id none (update_invoice i.id f db))
      (held (but i.id (allocates po.id none)) db.invoices) (allocated_value po.id (some i.id) db)
      (amount i) written others

-- A write after which the invoice holds nothing.
pub update_invoice-demoted :
    (po : PurchaseOrder) (id : ℕ) (f : Invoice → Invoice) (db : Db)
    → Ledger po db
    → ((i : Invoice) → holds_value (f i).status ≡ false)
    → allocated_value po.id none (update_invoice id f db) ≤ℤ allocated_value po.id (some id) db
unfolding allocated_value
update_invoice-demoted po id f db ledger out =
    rw
      (held-update_out id (allocates po.id none) f db.invoices
        (λ i. let holds_none = out i in ground arith))
      (but-allocates po id db ledger)

pub update_invoice-received :
    (po : PurchaseOrder) (id : ℕ) (f : Invoice → Invoice) (db : Db)
    → received_value po (update_invoice id f db) ≡ received_value po db
unfolding received_value
update_invoice-received po id f db = refl
