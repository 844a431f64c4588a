-- ===== src/Requisition/Lines.antt =====
-- The lines of a requisition that is created.
use aipms.Prelude.{
  ℕ, suc, ◌≡◌, Option, Option-cases, none, some, List, [], ◌∷◌, ◌++◌, map, ok, inl, inr, arith,
  Result-cases, subst, sym, ◌∙◌,
}
use aipms.Prelude.Int.{ℤ, pos, ◌≤ℤ◌, ◌*ℤ◌, sum_of}
use aipms.Prelude.Text.{Text}
use aipms.Money.{assert_database_int, assert_single_currency, database_int_max}
use aipms.Money.Laws.{assert_database_int_iff}
use aipms.Database.{Db, Requisition, OrderLine, ReqStatus}
use aipms.Requisition.{
  CreateRequisition, CreateRequisitionLine, checked_line, checked_lines, create, insert_requisition,
  check_budget, assert_budget_currency, find_budget, total_of,
}

abbrev pub IsInRange : ℤ → Type 0
IsInRange n = (pos 0 ≤ℤ n) × (n ≤ℤ pos database_int_max)

-- The line keeps what was asked for, under its number, at quantity times unit price.
abbrev pub IsLineOf : ℕ → CreateRequisitionLine → OrderLine → Type 0
IsLineOf n line l =
    (l.line_no ≡ n)
    × (l.quantity ≡ line.quantity)
    × (l.unit_price_minor ≡ line.unit_price_minor)
    × (l.line_total_minor ≡ line.quantity *ℤ line.unit_price_minor)
    × IsInRange l.line_total_minor

abbrev pub AreLinesOf : ℕ → List CreateRequisitionLine → List OrderLine → Type 0
AreLinesOf n [] [] = Unit
AreLinesOf n (line ∷ lines) (l ∷ ls) = IsLineOf n line l × AreLinesOf (suc n) lines ls
AreLinesOf n _ _ = ⊥

checked_line-IsLineOf :
    (n : ℕ) (line : CreateRequisitionLine) (l : OrderLine)
    → checked_line n line ≡ ok l
    → IsLineOf n line l
unfolding checked_line
checked_line-IsLineOf n line l h = elim (Result-cases (assert_database_int line.quantity)) [
  | inl (e, failed) ↦ absurd (ground arith)
  | inr (quantity, counted) ↦ elim (Result-cases (assert_database_int line.unit_price_minor)) [
    | inl (e, failed) ↦ absurd (ground arith)
    | inr (price, priced) ↦
        elim (Result-cases (assert_database_int (line.quantity *ℤ line.unit_price_minor))) [
          | inl (e, failed) ↦ absurd (ground arith)
          | inr (total, totalled) ↦
              let q = (assert_database_int_iff line.quantity quantity).0 counted in
              let p = (assert_database_int_iff line.unit_price_minor price).0 priced in
              let t =
                (assert_database_int_iff (line.quantity *ℤ line.unit_price_minor) total).0
                  totalled in
              let kept : (l.quantity ≡ quantity)
                  × (l.unit_price_minor ≡ price)
                  × (l.line_total_minor ≡ total)
                  × (l.line_no ≡ n) =
                ground arith in
              (
                kept.3,
                kept.0 ∙ sym q.0,
                kept.1 ∙ sym p.0,
                kept.2 ∙ sym t.0,
                subst IsInRange (t.0 ∙ sym kept.2) (t.1, t.2),
              )
        ]
  ]
]

checked_lines-AreLinesOf :
    (n : ℕ) (lines : List CreateRequisitionLine) (ls : List OrderLine)
    → checked_lines n lines ≡ ok ls
    → AreLinesOf n lines ls
unfolding checked_lines
checked_lines-AreLinesOf n [] ls h =
    let none_left : [] ≡ ls = ground arith in subst (AreLinesOf n []) none_left tt
checked_lines-AreLinesOf n (line ∷ lines) ls h = elim (Result-cases (checked_line n line)) [
  | inl (e, failed) ↦ absurd (ground arith)
  | inr (l, first) ↦ elim (Result-cases (checked_lines (suc n) lines)) [
    | inl (e, failed) ↦ absurd (ground arith)
    | inr (rest, others) ↦
        let split : l ∷ rest ≡ ls = ground arith in
        subst (AreLinesOf n (line ∷ lines)) split
          (checked_line-IsLineOf n line l first, checked_lines-AreLinesOf (suc n) lines rest others)
  ]
]

check_budget-reads :
    (budget : Option ℕ) (currency : Text) (db db' : Db)
    → check_budget budget currency db ≡ ok (tt, db')
    → db ≡ db'
unfolding check_budget assert_budget_currency
check_budget-reads none currency db db' h = ground arith
check_budget-reads (some id) currency db db' h = elim (Option-cases (find_budget id db)) [
  | inl missing ↦ absurd (ground arith)
  | inr (budget, found) ↦ ground arith
]

-- A requisition that is created is a draft of its requester with one line for each line that was
-- asked for, numbered from 1 in that order, each at quantity times unit price in the column's
-- range; its total lies in that range too, its lines have one currency, and it is the only row
-- that is added.
pub create_lem :
    (input : CreateRequisition) (db db' : Db) (r : Requisition)
    → create input db ≡ ok (r, db')
    → (r.status ≡ ReqStatus.draft)
      × (r.requested_by ≡ input.requested_by)
      × (r.budget_id ≡ input.budget_id)
      × AreLinesOf 1 input.lines r.lines
      × IsInRange (total_of r)
      × (db'.requisitions ≡ db.requisitions ++ r ∷ [])
      × (currency : Text) × (assert_single_currency
            (map (λ (l : OrderLine). l.currency_code) r.lines)
          ≡ ok currency)
unfolding create insert_requisition
create_lem input db db' r h = elim (Result-cases (checked_lines 1 input.lines)) [
  | inl (e, failed) ↦ absurd (ground arith)
  | inr (lines, checked) ↦
      let total = sum_of (λ (l : OrderLine). l.line_total_minor) lines in
      elim (Result-cases (assert_database_int total)) [
        | inl (e, failed) ↦ absurd (ground arith)
        | inr (same, in_range) ↦
            elim (Result-cases
              (assert_single_currency (map (λ (l : OrderLine). l.currency_code) lines))) [
                | inl (e, failed) ↦ absurd (ground arith)
                | inr (currency, single) ↦
                    elim (Result-cases (check_budget input.budget_id currency db)) [
                      | inl (e, failed) ↦ absurd (ground arith)
                      | inr ((unit, read_db), budgeted) ↦
                          let unread =
                            check_budget-reads input.budget_id currency db read_db budgeted in
                          let kept : lines ≡ r.lines = ground arith in
                          let range = (assert_database_int_iff total same).0 in_range in
                          (
                            ground arith,
                            ground arith,
                            ground arith,
                            subst (AreLinesOf 1 input.lines) kept
                                (checked_lines-AreLinesOf 1 input.lines lines checked),
                            subst
                                (λ (ls : List OrderLine).
                                  IsInRange (sum_of (λ (l : OrderLine). l.line_total_minor) ls))
                                kept (range.1, range.2),
                            ground (arith, unread),
                            currency,
                            subst
                                (λ (ls : List OrderLine).
                                  assert_single_currency
                                    (map (λ (l : OrderLine). l.currency_code) ls)
                                  ≡ ok currency)
                                kept single,
                          )
                    ]
              ]
      ]
]
