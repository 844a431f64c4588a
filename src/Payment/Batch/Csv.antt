-- ===== src/Payment/Batch/Csv.antt =====
-- The CSV text of a batch, `csvEscape` and `batchToCsv` of apps/api/src/payment-run/batch.ts.
use aipms.Prelude.{
  ℕ, suc, Bool, ◌||◌, Option, none, some, List, [], ◌∷◌, ◌++◌, map, any, ◌==◌, if◌then◌else◌,
}
use aipms.Prelude.Int.{ℤ, pos, negsuc}
use aipms.Prelude.Text.{Text, units}
use aipms.Database.{BatchBeneficiary}
use aipms.DocumentNumber.{to_digits}
use aipms.Payment.Batch.{BatchLine, BatchManifest}

abbrev pub quote : ℕ
quote = b'"'

-- /[",\n]/
unfoldable pub is_special : ℕ → Bool
is_special c = c == quote || c == b',' || c == 10

-- `value.replace(/"/g, '""')`
unfoldable pub double_quotes : Text → Text
double_quotes [] = []
double_quotes (c ∷ s) = if c == quote then quote ∷ quote ∷ double_quotes s else c ∷ double_quotes s

unfoldable pub csv_escape : Text → Text
csv_escape value = if any is_special value then quote ∷ double_quotes value ++ quote ∷ [] else value

unfoldable pub join : Text → List Text → Text
join separator [] = []
join separator (s ∷ []) = s
join separator (s ∷ t ∷ ts) = s ++ separator ++ join separator (t ∷ ts)

-- `String(n)` of an integer.
abbrev pub to_text : ℤ → Text
to_text (pos n) = to_digits n
to_text (negsuc n) = units "-" ++ to_digits (suc n)

abbrev pub bank_cells : Option BatchBeneficiary → List Text
bank_cells none = []
bank_cells (some b) = b.bank ∷ b.account_number ∷ b.holder ∷ []

-- The cells of a credit; a built batch has no credit without a beneficiary.
abbrev pub cells : BatchLine → List Text
cells c =
    (c.line_id ∷ c.invoice_number ∷ c.vendor_name ∷ bank_cells c.beneficiary)
    ++ to_text c.amount_minor ∷ c.currency_code ∷ c.memo ∷ []

abbrev pub newline : Text
newline = 10 ∷ []

abbrev pub csv_headers : List Text
csv_headers =
    units "lineId"
    ∷ units "invoiceNumber"
    ∷ units "vendorName"
    ∷ units "beneficiaryBank"
    ∷ units "beneficiaryAccountNumber"
    ∷ units "beneficiaryHolder"
    ∷ units "amountMinor"
    ∷ units "currencyCode"
    ∷ units "memo"
    ∷ []

abbrev pub row_of : BatchLine → Text
row_of c = join (units ",") (map csv_escape (cells c))

unfoldable pub batch_to_csv : BatchManifest → Text
batch_to_csv m =
    let head =
      units "# run="
      ++ m.run_number
      ++ units " executedAt="
      ++ m.executed_at
      ++ units " total="
      ++ to_text m.total_minor
      ++ units " "
      ++ m.currency_code in
    join newline (head ∷ join (units ",") csv_headers ∷ map row_of m.credits) ++ newline

-- A reader of one cell: the cell and what follows it. A quoted cell ends at a quote that is not
-- doubled, any other before the next comma or line feed.
abbrev pub put : ℕ → Text × Text → Text × Text
put c (cell, rest) = (c ∷ cell, rest)

unfoldable pub read_plain : Text → Text × Text
read_plain [] = ([], [])
read_plain (c ∷ s) =
    let rest = read_plain s in if c == b',' || c == 10 then ([], c ∷ s) else put c rest

unfoldable pub read_quoted : Text → Text × Text
read_quoted [] = ([], [])
read_quoted (c ∷ []) = if c == quote then ([], []) else (c ∷ [], [])
read_quoted (c ∷ d ∷ s) =
    let doubled = read_quoted s in
    let single = read_quoted (d ∷ s) in
    if c == quote then (if d == quote then put quote doubled else ([], d ∷ s)) else put c single

unfoldable pub read_cell : Text → Text × Text
read_cell [] = ([], [])
read_cell (c ∷ s) = if c == quote then read_quoted s else read_plain (c ∷ s)
