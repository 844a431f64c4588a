-- ===== src/Payment/Batch/Laws.antt =====
-- What a batch holds.
use mathlib.Core.List.{Permᴰ, append_assoc}
use mathlib.Core.List.Permᴰ
use aipms.Prelude.{
  ℕ, ◌≡◌, ◌↔◌, refl, sym, ◌∙◌, true, false, List, [], ◌∷◌, ◌++◌, map, ok, any, length, arith, inl,
  inr, Bool-cases, ◌==◌, ==→eq, ==-refl, ◌+◌, ◌||◌,
}
use aipms.Prelude.Int.{pos_part, neg_part, sum_of, sum_of-perm}
use aipms.Prelude.Text.{Text}
use aipms.Payment.Batch.{
  BatchInput, BatchLine, BatchLineInput, BatchManifest, Comparison, credit, unusable, compare_lines,
  insert_line, sort_lines, build_payment_batch, is_greater,
}
use aipms.Payment.Batch.Csv.{
  is_special, double_quotes, csv_escape, read_plain, read_quoted, read_cell, put, quote,
}

-- The end of the text, or a comma or a line feed.
abbrev pub EndsCell : Text → Type 0
EndsCell [] = Unit
EndsCell (c ∷ s) = (c == b',' || c == 10) ≡ true

read_quoted-cons :
    (c : ℕ) (s : Text) → (c == quote) ≡ false → read_quoted (c ∷ s) ≡ put c (read_quoted s)
unfolding read_quoted
read_quoted-cons c [] h = rw h
read_quoted-cons c (d ∷ s) h = rw h

read_quoted-double_quotes :
    (v rest : Text) → EndsCell rest → read_quoted (double_quotes v ++ quote ∷ rest) ≡ (v, rest)
unfolding read_quoted double_quotes
read_quoted-double_quotes [] [] h = refl
read_quoted-double_quotes [] (c ∷ s) h = let other : (c == quote) ≡ false = ground arith in rw other
read_quoted-double_quotes (c ∷ v) rest h = elim (Bool-cases (c == quote)) [
  | inl is_quote ↦ rw (is_quote, read_quoted-double_quotes v rest h, ==→eq c quote is_quote)
  | inr other ↦ rw (
    other,
    read_quoted-cons c (double_quotes v ++ quote ∷ rest) other,
    read_quoted-double_quotes v rest h,
  )
]

read_plain-append :
    (v rest : Text) → any is_special v ≡ false → EndsCell rest → read_plain (v ++ rest) ≡ (v, rest)
unfolding read_plain is_special
read_plain-append [] [] e h = refl
read_plain-append [] (c ∷ s) e h = rw h
read_plain-append (c ∷ v) rest e h =
    let plain : (c == b',' || c == 10) ≡ false = ground arith in
    rw (plain, read_plain-append v rest (ground arith) h)

read_cell-plain :
    (v rest : Text) → any is_special v ≡ false → EndsCell rest → read_cell (v ++ rest) ≡ (v, rest)
unfolding read_cell read_plain is_special
read_cell-plain [] [] e h = refl
read_cell-plain [] (c ∷ s) e h = let other : (c == quote) ≡ false = ground arith in rw (other, h)
read_cell-plain (c ∷ v) rest e h =
    let other : (c == quote) ≡ false = ground arith in rw other (read_plain-append (c ∷ v) rest e h)

-- An escaped cell, followed by the end of the text, a comma or a line feed, is read back as the
-- cell, with all that follows left.
pub csv_escape_round_trip :
    (value rest : Text) → EndsCell rest → read_cell (csv_escape value ++ rest) ≡ (value, rest)
unfolding csv_escape read_cell
csv_escape_round_trip value rest h = elim (Bool-cases (any is_special value)) [
  | inl special ↦
      rw (special, append_assoc (double_quotes value) (quote ∷ []) rest)
        (read_quoted-double_quotes value rest h)
  | inr plain ↦ rw plain (read_cell-plain value rest plain h)
]

credits-sum :
    (ls : List BatchLineInput)
    → sum_of (λ (c : BatchLine). c.amount_minor) (map credit ls)
      ≡ sum_of (λ (l : BatchLineInput). l.net_minor) ls
unfolding sum_of credit
credits-sum [] = refl
credits-sum (l ∷ ls) = rw (credits-sum ls)

module _ (locale_compare : Text → Text → Comparison) where
  insert_line-perm :
      (a : BatchLineInput) (ls : List BatchLineInput)
      → Permᴰ (a ∷ ls) (insert_line locale_compare a ls)
  unfolding insert_line
  insert_line-perm a [] = Permᴰ.cons refl Permᴰ.nil
  insert_line-perm a (b ∷ ls) = elim (Bool-cases (is_greater (compare_lines locale_compare a b))) [
    | inl later ↦
        rw later (Permᴰ.trans (Permᴰ.swap refl refl) (Permᴰ.cons refl (insert_line-perm a ls)))
    | inr first ↦ rw first (Permᴰ.refl (a ∷ b ∷ ls))
  ]

  sort_lines-perm : (ls : List BatchLineInput) → Permᴰ ls (sort_lines locale_compare ls)
  unfolding sort_lines
  sort_lines-perm [] = Permᴰ.nil
  sort_lines-perm (a ∷ ls) =
      Permᴰ.trans (Permᴰ.cons refl (sort_lines-perm ls))
        (insert_line-perm a (sort_lines locale_compare ls))

  credits-perm :
      (ls : List BatchLineInput) → Permᴰ (map credit ls) (map credit (sort_lines locale_compare ls))
  credits-perm ls = Permᴰ.map credit (sort_lines-perm ls)

  built :
      (input : BatchInput) (m : BatchManifest)
      → build_payment_batch locale_compare input ≡ ok m
      → (any unusable input.lines ≡ false)
        × (sum_of (λ (l : BatchLineInput). l.net_minor) input.lines ≡ input.total_minor)
        × (m.credits ≡ map credit (sort_lines locale_compare input.lines))
        × (m.total_minor ≡ input.total_minor)
        × (m.line_count ≡ length input.lines)
  unfolding build_payment_batch
  built input m h = (ground arith, ground arith, ground arith, ground arith, ground arith)

  builds :
      (input : BatchInput)
      → any unusable input.lines ≡ false
      → sum_of (λ (l : BatchLineInput). l.net_minor) input.lines ≡ input.total_minor
      → (m : BatchManifest) × (build_payment_batch locale_compare input ≡ ok m)
  unfolding build_payment_batch
  builds input usable total = (
    record {
      run_number = input.run_number;
      executed_at = input.executed_at;
      currency_code = input.currency_code;
      total_minor = input.total_minor;
      line_count = length input.lines;
      credits = map credit (sort_lines locale_compare input.lines);
    },
    rw (usable, total, ==-refl (pos_part input.total_minor + neg_part input.total_minor)) refl,
  )

  -- For any comparison of texts, a batch is built exactly when every line has a beneficiary and
  -- the lines sum to the run's total. Its credits are a permutation of the credits of the lines,
  -- and they sum to the run's total, which the batch states with the number of lines.
  pub build_payment_batch_lem :
      (input : BatchInput)
      → (((m : BatchManifest) × (build_payment_batch locale_compare input ≡ ok m)) ↔ (
          (any unusable input.lines ≡ false)
          × (sum_of (λ (l : BatchLineInput). l.net_minor) input.lines ≡ input.total_minor)))
        × ((m : BatchManifest)
            → build_payment_batch locale_compare input ≡ ok m
            → Permᴰ (map credit input.lines) m.credits
              × (sum_of (λ (c : BatchLine). c.amount_minor) m.credits ≡ input.total_minor)
              × (m.total_minor ≡ input.total_minor)
              × (m.line_count ≡ length input.lines))
  build_payment_batch_lem input = (
    (λ h. let b = built input h.0 h.1 in (b.0, b.1), λ h. builds input h.0 h.1),
    λ m h.
        let b = built input m h in
        let order = credits-perm input.lines in
        (
          rw b.2 order,
          rw b.2 (
              sym (sum_of-perm (λ (c : BatchLine). c.amount_minor) order)
              ∙ credits-sum input.lines
              ∙ b.1),
          b.3,
          b.4,
        ),
  )
