-- ===== src/Payment/Batch.antt =====
-- The payment batch, apps/api/src/payment-run/batch.ts: the credits of a run in the order of their
-- invoices, the check of their total, and the CSV text. The comparison of texts by the locale is a
-- parameter; the sort of the language is stable, so one by insertion gives the same list wherever
-- the comparison is an order. The JSON text and its hash are not kept.
pub mod Laws
pub mod Csv
mod Tests
use aipms.Prelude.{
  ℕ, suc, Bool, true, false, not, ◌&&◌, ◌||◌, Option, none, some, List, [], ◌∷◌, ◌++◌, map, Error,
  Result, ok, err, ◌>>=◌, ◌>>◌, throw_if, any, all, length, is_some, ◌==◌, if◌then◌else◌,
}
use aipms.Prelude.Int.{ℤ, pos, negsuc, sum_of, eqb_ℤ}
use aipms.Prelude.Text.{Text, units}
use aipms.Database.{RawAccount, BatchBeneficiary}
use aipms.DocumentNumber.{to_digits}
use aipms.Payment.Beneficiary.{parse_beneficiary}

pub record BatchLineInput : Type 0 where
  pub line_id : Text
  pub invoice_id : Text
  pub invoice_number : Text
  pub vendor_name : Text
  pub vendor_tax_id : Option Text
  pub net_minor : ℤ
  pub currency_code : Text
  pub bank_account : RawAccount

-- The beneficiary is what the account is read as; `none` stands for null.
pub record BatchLine : Type 0 where
  pub line_id : Text
  pub invoice_id : Text
  pub invoice_number : Text
  pub vendor_name : Text
  pub vendor_tax_id : Option Text
  pub beneficiary : Option BatchBeneficiary
  pub amount_minor : ℤ
  pub currency_code : Text
  pub memo : Text

pub record BatchInput : Type 0 where
  pub run_number : Text
  pub executed_at : Text
  pub currency_code : Text
  pub total_minor : ℤ
  pub lines : List BatchLineInput

pub record BatchManifest : Type 0 where
  pub run_number : Text
  pub executed_at : Text
  pub currency_code : Text
  pub total_minor : ℤ
  pub line_count : ℕ
  pub credits : List BatchLine

-- What a comparison answers: a negative number, zero or a positive one.
pub data Comparison : Type 0 where
  less same greater : Comparison

abbrev pub is_greater : Comparison → Bool
is_greater Comparison.greater = true
is_greater _ = false

-- `a.localeCompare(b) || c.localeCompare(d)`
abbrev pub or_compare : Comparison → Comparison → Comparison
or_compare Comparison.same next = next
or_compare first next = first

unfoldable pub unusable : BatchLineInput → Bool
unusable line = not (is_some (parse_beneficiary line.bank_account))

unfoldable pub credit : BatchLineInput → BatchLine
credit line = record {
  line_id = line.line_id;
  invoice_id = line.invoice_id;
  invoice_number = line.invoice_number;
  vendor_name = line.vendor_name;
  vendor_tax_id = line.vendor_tax_id;
  beneficiary = parse_beneficiary line.bank_account;
  amount_minor = line.net_minor;
  currency_code = line.currency_code;
  memo = units "Payment " ++ line.invoice_number ++ units " " ++ line.vendor_name;
}

module _ (locale_compare : Text → Text → Comparison) where
  unfoldable pub compare_lines : BatchLineInput → BatchLineInput → Comparison
  compare_lines a b =
      or_compare (locale_compare a.invoice_number b.invoice_number)
        (locale_compare a.line_id b.line_id)

  unfoldable pub insert_line : BatchLineInput → List BatchLineInput → List BatchLineInput
  insert_line a [] = a ∷ []
  insert_line a (b ∷ bs) =
      if is_greater (compare_lines a b) then b ∷ insert_line a bs else a ∷ b ∷ bs

  unfoldable pub sort_lines : List BatchLineInput → List BatchLineInput
  sort_lines [] = []
  sort_lines (a ∷ as_given) = insert_line a (sort_lines as_given)

  unfoldable pub build_payment_batch : BatchInput → Result BatchManifest
  build_payment_batch input = do
    throw_if (any unusable input.lines) (Error.plain_error "Unusable beneficiaries")
    throw_if
        (not (eqb_ℤ (sum_of (λ (l : BatchLineInput). l.net_minor) input.lines) input.total_minor))
        (Error.plain_error "Batch does not balance")
    ok (record {
      run_number = input.run_number;
      executed_at = input.executed_at;
      currency_code = input.currency_code;
      total_minor = input.total_minor;
      line_count = length input.lines;
      credits = map credit (sort_lines input.lines);
    })
