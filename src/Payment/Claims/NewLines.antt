-- ===== src/Payment/Claims/NewLines.antt =====
-- The lines of a new run: their ids, their invoices, and what they hold.
use aipms.Prelude.{
  ℕ, suc, ◌+◌, ◌≤◌, ◌<◌, ◌≡◌, refl, true, false, List, [], ◌∷◌, inl, inr, arith, Bool-cases,
  Option-cases, Result-cases, ==→eq, all, find?, count, length, All, All-imp, ◌==◌, ok,
}
use aipms.Database.{Invoice, Vendor, PaymentRun, PaymentRunLine, is_planned, is_matched}
use aipms.Payment.Create.{mem, invoices_in, PlannedLine, snapshot_line, snapshot_lines, new_lines}
use aipms.Payment.Beneficiary.{freeze_beneficiary}
use aipms.Payment.Claims.{holds, all_paid}

abbrev IsNew : ℕ → ℕ → ℕ → PaymentRunLine → Type 0
IsNew run_id first last l =
    (is_planned l.status ≡ true) × (l.run_id ≡ run_id) × (first ≤ l.id) × (l.id < last)

pub new_lines-All :
    (run_id first : ℕ) (ls : List PlannedLine)
    → All (IsNew run_id first (first + length ls)) (new_lines run_id first ls)
unfolding new_lines
new_lines-All run_id first [] = tt
new_lines-All run_id first (l ∷ ls) = (
  (refl, refl, omega arith, omega arith),
  All-imp (λ x h. (h.0, h.1, omega arith, omega arith)) (new_lines run_id (suc first) ls)
      (new_lines-All run_id (suc first) ls),
)

pub new_lines-before :
    (run_id first : ℕ) (ls : List PlannedLine) (k : ℕ)
    → k < first
    → count (λ (l : PaymentRunLine). l.id == k) (new_lines run_id first ls) ≡ 0
unfolding new_lines
new_lines-before run_id first [] k h = refl
new_lines-before run_id first (l ∷ ls) k h =
    ground (arith, new_lines-before run_id (suc first) ls k)

pub new_lines-ids :
    (run_id first : ℕ) (ls : List PlannedLine) (k : ℕ)
    → count (λ (l : PaymentRunLine). l.id == k) (new_lines run_id first ls) ≤ 1
unfolding new_lines
new_lines-ids run_id first [] k = omega arith
new_lines-ids run_id first (l ∷ ls) k =
    ground (arith, new_lines-before run_id (suc first) ls k, new_lines-ids run_id (suc first) ls k)

pub new_lines-holds :
    (runs : List PaymentRun) (i run_id first : ℕ) (ls : List PlannedLine)
    → count (holds runs i) (new_lines run_id first ls)
      ≤ count (λ (p : PlannedLine). p.invoice_id == i) ls
unfolding new_lines holds
new_lines-holds runs i run_id first [] = omega arith
new_lines-holds runs i run_id first (l ∷ ls) =
    ground (arith, new_lines-holds runs i run_id (suc first) ls)

-- The line of an invoice is for it.
pub snapshot_line-invoice :
    (vendors : List Vendor) (v : Invoice) (p : PlannedLine)
    → snapshot_line vendors v ≡ ok p
    → p.invoice_id ≡ v.id
unfolding snapshot_line
snapshot_line-invoice vendors v p h =
    elim (Option-cases (find? (λ (w : Vendor). w.id == v.vendor_id) vendors)) [
      | inl missing ↦ absurd (ground arith)
      | inr (vendor, found) ↦ elim (Result-cases (freeze_beneficiary v.number vendor)) [
        | inl (e, refused) ↦ absurd (ground arith)
        | inr (snapshot, frozen) ↦ ground arith
      ]
    ]

-- Each invoice of the plan has one line.
pub snapshot_lines-count :
    (vendors : List Vendor) (i : ℕ) (invoices : List Invoice) (ls : List PlannedLine)
    → snapshot_lines vendors invoices ≡ ok ls
    → count (λ (p : PlannedLine). p.invoice_id == i) ls
      ≡ count (λ (v : Invoice). v.id == i) invoices
unfolding snapshot_lines
snapshot_lines-count vendors i [] ls h = let e : [] ≡ ls = ground arith in rw (← e)
snapshot_lines-count vendors i (v ∷ invoices) ls h = elim (Result-cases (snapshot_line vendors v)) [
  | inl (e, refused) ↦ absurd (ground arith)
  | inr (p, one) ↦ elim (Result-cases (snapshot_lines vendors invoices)) [
    | inl (e, refused) ↦ absurd (ground arith)
    | inr (ps, rest) ↦
        let e : p ∷ ps ≡ ls = ground arith in
        let same : p.invoice_id ≡ v.id = snapshot_line-invoice vendors v p one in
        rw (← e) (ground (arith, same, snapshot_lines-count vendors i invoices ps rest))
  ]
]

pub count-invoices_in-le :
    (ids : List ℕ) (i : ℕ) (invoices : List Invoice)
    → count (λ (v : Invoice). v.id == i) (invoices_in ids invoices)
      ≤ count (λ (v : Invoice). v.id == i) invoices
count-invoices_in-le ids i [] = omega arith
count-invoices_in-le ids i (v ∷ invoices) = ground (arith, count-invoices_in-le ids i invoices)

-- An invoice of the plan is one of the ids, and as it is matched it is not paid.
pub planned_invoice :
    (ids : List ℕ) (i : ℕ) (invoices : List Invoice)
    → 0 < count (λ (v : Invoice). v.id == i) (invoices_in ids invoices)
    → all (λ (v : Invoice). is_matched v.status) (invoices_in ids invoices) ≡ true
    → (mem i ids ≡ true) × (all_paid invoices i ≡ false)
unfolding all_paid
planned_invoice ids i [] h m = absurd (omega arith)
planned_invoice ids i (v ∷ invoices) h m = elim (Bool-cases (mem v.id ids)) [
  | inl taken ↦ elim (Bool-cases (v.id == i)) [
    | inl same ↦ (rw (← ==→eq v.id i same) taken, ground arith)
    | inr other ↦
        let (member, unpaid) = planned_invoice ids i invoices (ground arith) (ground arith) in
        (member, ground (arith, unpaid))
  ]
  | inr left_out ↦
      let (member, unpaid) = planned_invoice ids i invoices (ground arith) (ground arith) in
      (member, ground (arith, unpaid))
]
