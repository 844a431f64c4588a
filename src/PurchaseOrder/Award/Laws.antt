-- ===== src/PurchaseOrder/Award/Laws.antt =====
-- The sum of the lines of an awarded quote.
use aipms.Prelude.{
  ◌≡◌, ◌∙◌, List, [], ◌∷◌, Option, some, ok, inl, inr, arith, Result-cases, Option-cases, subst,
}
use aipms.Prelude.Int.{ℤ, pos, ◌≤ℤ◌, int_laws, sum_of}
use aipms.Prelude.Text.{Text}
use aipms.Money.{assert_database_int}
use aipms.Money.Laws.{assert_database_int_iff}
use aipms.Database.{OrderLine, Quote, QuoteLine}
use aipms.PurchaseOrder.Award.{
  lines_from_awarded_quote, quoted_lines, awarded_lines, whole_quote, total_of_lines,
}

quoted_lines-total :
    (quote : Quote) (currency : Text) (total : ℤ) (rows : List (Option QuoteLine))
    (lines : List OrderLine)
    → quoted_lines quote currency total rows ≡ ok lines
    → total_of_lines lines ≡ total
unfolding quoted_lines
quoted_lines-total quote currency total [] lines h =
    let one : whole_quote quote currency total ∷ [] ≡ lines = ground arith in
    subst (λ ls. total_of_lines ls ≡ total) one (alone (whole_quote quote currency total) total)
  where
    alone : (l : OrderLine) (t : ℤ) → total_of_lines (l ∷ []) ≡ l.line_total_minor
    alone l t = unfold sum_of in omega int_laws
quoted_lines-total quote currency total (row ∷ rows) lines h =
    elim (Result-cases (awarded_lines currency 1 (row ∷ rows))) [
      | inl (e, failed) ↦ absurd (ground arith)
      | inr (ls, made) ↦ elim (Result-cases (assert_database_int (total_of_lines ls))) [
        | inl (e, failed) ↦ absurd (ground arith)
        | inr (sum, in_range) ↦
            let same = (assert_database_int_iff (total_of_lines ls) sum).0 in_range in
            let kept : ls ≡ lines = ground arith in
            let whole : sum ≡ total = ground arith in
            subst (λ (x : List OrderLine). total_of_lines x ≡ total) kept (same.0 ∙ whole)
      ]
    ]

-- The lines that an order takes from an awarded quote sum to the quote's total, which is positive.
pub lines_from_awarded_quote_total :
    (quote : Quote) (currency : Text) (lines : List OrderLine)
    → lines_from_awarded_quote quote currency ≡ ok lines
    → (quote.total_minor ≡ some (total_of_lines lines)) × ¬ (total_of_lines lines ≤ℤ pos 0)
unfolding lines_from_awarded_quote
lines_from_awarded_quote_total quote currency lines h = elim (Option-cases quote.total_minor) [
  | inl missing ↦ absurd (ground arith)
  | inr (given, stated) ↦ elim (Result-cases (assert_database_int given)) [
    | inl (e, failed) ↦ absurd (ground arith)
    | inr (total, in_range) ↦
        let same = (assert_database_int_iff given total).0 in_range in
        let made : quoted_lines quote currency total quote.lines ≡ ok lines = ground arith in
        let sum = quoted_lines-total quote currency total quote.lines lines made in
        let positive : ¬ (total ≤ℤ pos 0) = ground arith in
        (rw (sum, ← same.0) stated, rw sum positive)
  ]
]
