-- ===== src/Invoice/Match/Laws.antt =====
-- What a match promises about the value of the order and of its receipts.
use aipms.Prelude.{
  ◌≢◌, ℕ, ◌+◌, ◌*◌, ◌≤◌, ◌<◌, ◌≡◌, Bool, true, false, Option, none, some, inl, inr, arith, find?,
  ◌==◌, Bool-cases, Option-cases, ltb,
}
use aipms.Prelude.Int.{ℤ, pos, pos_part, neg_part, ◌-ℤ◌, ◌≤ℤ◌, ◌<ℤ◌, leb_ℤ, -ℤ_parts}
use aipms.Prelude.Text.{text_eq}
use aipms.Money.{database_int_max}
use aipms.Database.{Db, PurchaseOrder, MatchOutcome, is_live}
use aipms.Invoice.Match.{
  MatchInput, abs, at_least_one, exceeds_capacity, coverage, refusal, match_with, match_against_po,
  receipts_result, is_allowed_partial, received_value, allocated_value,
}

-- What the rounded ratio in basis points is relied on for: below 2 ^ 32 it is a nearest integer to
-- 10000 a / b (a half may go either way in floating point), and it is at least 10000 where a is at
-- least b.
pub record Rounds (ratio_bps : ℕ → ℕ → ℕ) : Type 0 where
  pub nearest :
      (a b : ℕ)
      → 0 < b
      → a < 4294967296
      → b < 4294967296
      → (20000 * a ≤ 2 * b * ratio_bps a b + b) × (2 * b * ratio_bps a b ≤ 20000 * a + b)
  pub at_least_whole : (a b : ℕ) → 0 < b → b ≤ a → 10000 ≤ ratio_bps a b

-- The amount is at most 1.05005 times the capacity.
abbrev pub Covers : ℤ → ℤ → Type 0
Covers amount capacity =
    20000 * pos_part amount + 21001 * neg_part capacity
    ≤ 21001 * pos_part capacity + 20000 * neg_part amount

abbrev pub IsAmount : ℤ → Type 0
IsAmount n = (pos 0 ≤ℤ n) × (n ≤ℤ pos database_int_max)

mul_le_tolerance : (b r : ℕ) → r ≤ 500 → 2 * b * r ≤ 1000 * b
mul_le_tolerance b r h = grind arith

-- The tolerance, for an excess over a capacity that is not zero.
excess-le :
    (ratio_bps : ℕ → ℕ → ℕ) (excess capacity : ℕ)
    → Rounds ratio_bps
    → 0 < capacity
    → capacity < 4294967296
    → ratio_bps excess capacity ≤ 500
    → 20000 * excess ≤ 1001 * capacity
excess-le ratio_bps excess capacity rounds positive small within =
    elim (Bool-cases (ltb excess 4294967296)) [
      | inl bounded ↦
          let near = (rounds.nearest excess capacity positive (ground arith) small).0 in
          omega (arith, near, mul_le_tolerance capacity (ratio_bps excess capacity) within)
      | inr huge ↦
          let whole = rounds.at_least_whole excess capacity positive (ground arith) in
          absurd (omega (arith, whole, within))
    ]

pub exceeds_capacity-Covers :
    (ratio_bps : ℕ → ℕ → ℕ) (total capacity : ℤ)
    → Rounds ratio_bps
    → IsAmount total
    → exceeds_capacity ratio_bps total capacity ≡ false
    → Covers total capacity
unfolding exceeds_capacity
exceeds_capacity-Covers ratio_bps total capacity rounds amount h =
    elim (Bool-cases (leb_ℤ total capacity)) [
      | inl fits ↦ ground arith
      | inr exceeds ↦
          let excess = abs (total -ℤ capacity) in
          let base = at_least_one (pos_part capacity) in
          let within : ratio_bps excess base ≤ 500 = ground arith in
          let bound = excess-le ratio_bps excess base rounds (ground arith) (ground arith) within in
          elim (Bool-cases (pos_part capacity == 0)) [
            | inl z ↦ ground (arith, -ℤ_parts total capacity)
            | inr n ↦ ground (arith, -ℤ_parts total capacity)
          ]
    ]

-- What a match stands for: the value that is received and the order's own are above what is
-- allocated by the amount, up to the tolerance.
pub coverage-matched :
    (ratio_bps : ℕ → ℕ → ℕ) (total po_total received allocated : ℤ)
    → Rounds ratio_bps
    → IsAmount total
    → coverage ratio_bps total po_total received allocated ≡ MatchOutcome.matched
    → (allocated <ℤ received)
      × Covers total (received -ℤ allocated)
      × Covers total (po_total -ℤ allocated)
unfolding coverage
coverage-matched ratio_bps total po_total received allocated rounds amount h =
    let by_receipts : exceeds_capacity ratio_bps total (received -ℤ allocated) ≡ false =
      ground arith in
    let by_order : exceeds_capacity ratio_bps total (po_total -ℤ allocated) ≡ false =
      ground arith in
    (
      ground (arith, -ℤ_parts received allocated),
      exceeds_capacity-Covers ratio_bps total (received -ℤ allocated) rounds amount by_receipts,
      exceeds_capacity-Covers ratio_bps total (po_total -ℤ allocated) rounds amount by_order,
    )

-- What a match that comes out as matched has found.
pub record IsMatchFor (input : MatchInput) (left_out : Option ℕ) (db : Db) (po : PurchaseOrder)
    : Type 0 where
  pub found : find? (λ (p : PurchaseOrder). p.id == input.po_id) db.purchase_orders ≡ some po
  pub live : is_live po.status ≡ true
  pub vendor : po.vendor_id ≡ input.vendor_id
  pub currency : text_eq po.currency_code input.currency_code ≡ true
  pub remains : allocated_value po.id left_out db <ℤ received_value po db
  pub covered : Covers input.total_minor (received_value po db -ℤ allocated_value po.id left_out db)
  pub within_order : Covers input.total_minor (po.total_minor -ℤ allocated_value po.id left_out db)

refusal-none :
    (ratio_bps : ℕ → ℕ → ℕ) (input : MatchInput) (po : PurchaseOrder) (partial : Bool)
    → refusal ratio_bps input po partial ≡ none
    → (is_live po.status ≡ true)
      × (po.vendor_id ≡ input.vendor_id)
      × (text_eq po.currency_code input.currency_code ≡ true)
unfolding refusal
refusal-none ratio_bps input po partial h = (ground arith, ground arith, ground arith)

refusal-unmatched :
    (ratio_bps : ℕ → ℕ → ℕ) (input : MatchInput) (po : PurchaseOrder) (partial : Bool)
    → refusal ratio_bps input po partial ≢ some MatchOutcome.matched
unfolding refusal
refusal-unmatched ratio_bps input po partial h = ground arith

match_with-matched :
    (ratio_bps : ℕ → ℕ → ℕ) (input : MatchInput) (po : PurchaseOrder) (left_out : Option ℕ)
    (db : Db)
    → (match_with ratio_bps input po left_out db).outcome ≡ MatchOutcome.matched
    → (refusal ratio_bps input po (is_allowed_partial ratio_bps input po) ≡ none)
      × (coverage ratio_bps input.total_minor po.total_minor
            (received_value po db)
            (allocated_value po.id left_out db)
          ≡ MatchOutcome.matched)
unfolding match_with receipts_result
match_with-matched ratio_bps input po left_out db h =
    let refused = refusal-unmatched ratio_bps input po (is_allowed_partial ratio_bps input po) in
    elim (Option-cases (refusal ratio_bps input po (is_allowed_partial ratio_bps input po))) [
      | inl passed ↦ (passed, ground arith)
      | inr (outcome, e) ↦ absurd (ground arith)
    ]

-- Given that the rounded ratio is a nearest one, and for an amount in the column's range: a match
-- comes out as matched only for an order that is there, live, of the invoice's vendor and in its
-- currency, of which more is received than allocated, where the amount is at most 1.05005 times
-- what is left of the received value and of the order's total.
pub match_against_po-matched :
    (ratio_bps : ℕ → ℕ → ℕ) (input : MatchInput) (left_out : Option ℕ) (db : Db)
    → Rounds ratio_bps
    → IsAmount input.total_minor
    → (match_against_po ratio_bps input left_out db).outcome ≡ MatchOutcome.matched
    → (po : PurchaseOrder) × IsMatchFor input left_out db po
unfolding match_against_po
match_against_po-matched ratio_bps input left_out db rounds amount h =
    elim (Option-cases (find? (λ (p : PurchaseOrder). p.id == input.po_id) db.purchase_orders)) [
      | inl missing ↦ absurd (ground arith)
      | inr (po, found) ↦
          let passed = match_with-matched ratio_bps input po left_out db (ground arith) in
          let sound =
            coverage-matched ratio_bps input.total_minor po.total_minor (received_value po db)
              (allocated_value po.id left_out db) rounds amount passed.1 in
          let (live, vendor, currency) =
            refusal-none ratio_bps input po (is_allowed_partial ratio_bps input po) passed.0 in
          (
            po,
            record {
              found = found;
              live = live;
              vendor = vendor;
              currency = currency;
              remains = sound.0;
              covered = sound.1;
              within_order = sound.2;
            },
          )
    ]
