-- ===== src/Tax/Laws.antt =====
-- What the tax engine computes: rounding, totals and bounds.
use aipms.Prelude.{
  ℕ, zero, suc, ◌+◌, ◌*◌, ◌≤◌, ◌≡◌, refl, sym, ◌∙◌, Option, some, none, List, [], ◌∷◌, ◌++◌, map,
  arith, All, All-imp, or_else,
}
use mathlib.Core.List.{append-nil, append_assoc}
use aipms.Prelude.Int.{
  ℤ, pos, negsuc, pos_part, neg_part, ◌+ℤ◌, ◌-ℤ◌, ◌*ℤ◌, ◌≤ℤ◌, int_laws, sum_of, sum_of_nonneg,
  sum_of_mono,
}
use aipms.Tax.{
  TaxClass, TaxLine, RawRate, RawPolicy, normalize_rate, normalize_tax_policy, ph_default_ewt,
  TaxPolicyConfig, Totals, round_minor, pct_bps, line_vat, line_ewt, line_vatable, line_tax,
  tax_step, tax_loop, compute_tax,
}

-- `round_minor n` is the integer nearest to n / 10000, and of two as near the greater one:
-- 10000 r - 5000 ≤ n < 10000 r + 5000.
pub round_minor_nearest :
    (n : ℤ)
    → let r = round_minor n in
      (10000 * pos_part r + neg_part n ≤ pos_part n + 10000 * neg_part r + 5000)
      × (pos_part n + 10000 * neg_part r + 1 ≤ 10000 * pos_part r + neg_part n + 5000)
unfolding round_minor
round_minor_nearest (pos n) = omega arith
round_minor_nearest (negsuc k) = ground arith

-- The parts of a product by a number.
times_parts :
    (amount : ℤ) (n : ℕ)
    → (pos_part (amount *ℤ pos n) ≡ pos_part amount * n)
      × (neg_part (amount *ℤ pos n) ≡ neg_part amount * n)
unfolding ◌*ℤ◌
times_parts (pos a) n = (ground arith, ground arith)
times_parts (negsuc k) n = (ground arith, ground arith)

-- The percentage of an amount of either sign is the integer nearest to amount * bps / 10000, with
-- a half rounded up.
pub pct_bps_nearest :
    (amount : ℤ) (bps : ℕ)
    → let r = pct_bps amount (some bps) in
      (10000 * pos_part r + neg_part amount * bps
        ≤ pos_part amount * bps + 10000 * neg_part r + 5000)
      × (pos_part amount * bps + 10000 * neg_part r + 1
          ≤ 10000 * pos_part r + neg_part amount * bps + 5000)
unfolding pct_bps
pct_bps_nearest amount zero = (omega arith, omega arith)
pct_bps_nearest amount (suc b) =
    let near = round_minor_nearest (amount *ℤ pos (suc b)) in
    let parts = times_parts amount (suc b) in ground (arith, near, parts)

mul_le_bps : (n bps : ℕ) → bps ≤ 10000 → n * bps ≤ n * 10000
mul_le_bps n bps h = grind arith

-- A percentage of at most 100 % of an amount that is not negative lies between 0 and the amount.
pub pct_bps-le :
    (n bps : ℕ)
    → bps ≤ 10000
    → (neg_part (pct_bps (pos n) (some bps)) ≡ 0) × (pos_part (pct_bps (pos n) (some bps)) ≤ n)
unfolding pct_bps
pct_bps-le n bps h =
    let near = round_minor_nearest (pos n *ℤ pos bps) in
    let parts = times_parts (pos n) bps in ground (arith, near, parts, mul_le_bps n bps h)

-- The loop adds each line's tax to its variables.
tax_loop_totals :
    (policy : TaxPolicyConfig) (lines : List TaxLine) (t : Totals)
    → let u = tax_loop policy lines t in
      (u.vatable_minor ≡ t.vatable_minor +ℤ sum_of line_vatable lines)
      × (u.vat_minor ≡ t.vat_minor +ℤ sum_of (line_vat policy) lines)
      × (u.ewt_minor ≡ t.ewt_minor +ℤ sum_of (line_ewt policy) lines)
unfolding tax_loop sum_of
tax_loop_totals policy [] t = (omega int_laws, omega int_laws, omega int_laws)
tax_loop_totals policy (line ∷ lines) t =
    let (vatable, vat, ewt) = tax_loop_totals policy lines (tax_step policy line t) in
    (vatable ∙ omega int_laws, vat ∙ omega int_laws, ewt ∙ omega int_laws)

tax_loop_lines :
    (policy : TaxPolicyConfig) (lines : List TaxLine) (t : Totals)
    → (tax_loop policy lines t).line_result ≡ t.line_result ++ map (line_tax policy) lines
unfolding tax_loop
tax_loop_lines policy [] t = sym (append-nil _)
tax_loop_lines policy (line ∷ lines) t =
    tax_loop_lines policy lines (tax_step policy line t)
    ∙ append_assoc t.line_result (line_tax policy line ∷ []) (map (line_tax policy) lines)

abbrev empty_totals : Totals
empty_totals = record {
  vatable_minor = pos 0;
  vat_minor = pos 0;
  ewt_minor = pos 0;
  line_result = [];
}

-- The totals that the tax loop gathers are the sums over the lines of amount, vatable base, VAT
-- and EWT; the net payable is gross plus VAT less EWT; and the line results are those of the
-- lines, in their order.
pub compute_tax_totals :
    (lines : List TaxLine) (policy : TaxPolicyConfig)
    → let c = compute_tax lines policy in
      (c.gross_minor ≡ sum_of (λ l. l.amount_minor) lines)
      × (c.vatable_minor ≡ sum_of line_vatable lines)
      × (c.vat_minor ≡ sum_of (line_vat policy) lines)
      × (c.ewt_minor ≡ sum_of (line_ewt policy) lines)
      × (c.net_payable_minor ≡ c.gross_minor +ℤ c.vat_minor -ℤ c.ewt_minor)
      × (c.lines ≡ map (line_tax policy) lines)
unfolding compute_tax
compute_tax_totals lines policy =
    let (vatable, vat, ewt) = tax_loop_totals policy lines empty_totals in
    (
      refl,
      vatable ∙ omega int_laws,
      vat ∙ omega int_laws,
      ewt ∙ omega int_laws,
      refl,
      tax_loop_lines policy lines empty_totals,
    )

-- Every rate of the policy is at most 100 %.
abbrev pub HasBoundedRates : TaxPolicyConfig → Type 0
HasBoundedRates policy =
    (policy.vat_rate_bps ≤ 10000)
    × ((c : TaxClass) → (r : ℕ) → policy.ewt_rates_bps c ≡ some r → r ≤ 10000)

abbrev IsShare : ℤ → ℤ → Type 0
IsShare part whole = (pos 0 ≤ℤ part) × (part ≤ℤ whole)

pct_bps-IsShare :
    (amount : ℤ) (rate : Option ℕ)
    → pos 0 ≤ℤ amount
    → ((r : ℕ) → rate ≡ some r → r ≤ 10000)
    → IsShare (pct_bps amount rate) amount
pct_bps-IsShare (negsuc k) rate nonneg bounded = absurd (omega arith)
pct_bps-IsShare (pos n) none nonneg bounded = unfold pct_bps in (omega arith, omega arith)
pct_bps-IsShare (pos n) (some bps) nonneg bounded =
    let (neg, le) = pct_bps-le n bps (bounded bps refl) in (omega arith, omega arith)

line_vat-IsShare :
    (policy : TaxPolicyConfig) (line : TaxLine)
    → policy.vat_rate_bps ≤ 10000
    → pos 0 ≤ℤ line.amount_minor
    → IsShare (line_vat policy line) (line_vatable line)
      × IsShare (line_vatable line) line.amount_minor
unfolding line_vat line_vatable
line_vat-IsShare policy line h nonneg =
    let share =
      pct_bps-IsShare line.amount_minor (some policy.vat_rate_bps) nonneg (λ r e. ground arith) in
    ground (arith, share)

line_ewt-IsShare :
    (policy : TaxPolicyConfig) (line : TaxLine)
    → HasBoundedRates policy
    → pos 0 ≤ℤ line.amount_minor
    → IsShare (line_ewt policy line) line.amount_minor
unfolding line_ewt
line_ewt-IsShare policy line h nonneg =
    pct_bps-IsShare line.amount_minor (policy.ewt_rates_bps line.class) nonneg (h.1 line.class)

-- With rates of at most 100 % and no negative line, the VAT is not negative and at most the
-- vatable base, which is at most the gross; the EWT is not negative and at most the gross; and the
-- net payable is not negative.
pub compute_tax_bounds :
    (lines : List TaxLine) (policy : TaxPolicyConfig)
    → HasBoundedRates policy
    → All (λ (l : TaxLine). pos 0 ≤ℤ l.amount_minor) lines
    → let c = compute_tax lines policy in
      (pos 0 ≤ℤ c.vat_minor)
      × (c.vat_minor ≤ℤ c.vatable_minor)
      × (c.vatable_minor ≤ℤ c.gross_minor)
      × (pos 0 ≤ℤ c.ewt_minor)
      × (c.ewt_minor ≤ℤ c.gross_minor)
      × (pos 0 ≤ℤ c.net_payable_minor)
compute_tax_bounds lines policy h nonneg =
    let (g, b, v, e, n, _) = compute_tax_totals lines policy in
    let vat = λ (l : TaxLine) (k : pos 0 ≤ℤ l.amount_minor). line_vat-IsShare policy l h.0 k in
    let ewt = λ (l : TaxLine) (k : pos 0 ≤ℤ l.amount_minor). line_ewt-IsShare policy l h k in
    let v0 = sum_of_nonneg (line_vat policy) lines (All-imp (λ l k. (vat l k).0.0) lines nonneg) in
    let v1 =
      sum_of_mono (line_vat policy) line_vatable lines
        (All-imp (λ l k. (vat l k).0.1) lines nonneg) in
    let v2 =
      sum_of_mono line_vatable (λ l. l.amount_minor) lines
        (All-imp (λ l k. (vat l k).1.1) lines nonneg) in
    let e0 = sum_of_nonneg (line_ewt policy) lines (All-imp (λ l k. (ewt l k).0) lines nonneg) in
    let e1 =
      sum_of_mono (line_ewt policy) (λ l. l.amount_minor) lines
        (All-imp (λ l k. (ewt l k).1) lines nonneg) in
    rw (n, g, b, v, e) (v0, v1, v2, e0, e1, omega int_laws)

normalize_rate-le :
    (raw : RawRate) (fallback : ℕ) → fallback ≤ 10000 → normalize_rate raw fallback ≤ 10000
unfolding normalize_rate
normalize_rate-le RawRate.absent fallback h = h
normalize_rate-le RawRate.not_finite fallback h = h
normalize_rate-le (RawRate.finite (negsuc k) den) fallback h = h
normalize_rate-le (RawRate.finite (pos n) den) fallback h = ground arith

ph_default_ewt-le : (c : TaxClass) → or_else (ph_default_ewt c) 0 ≤ 10000
ph_default_ewt-le c = ground arith

-- Whatever a stored policy holds, every rate that the engine gets from it lies within 0 and 100 %.
pub normalize_tax_policy-HasBoundedRates :
    (raw : RawPolicy) → HasBoundedRates (normalize_tax_policy raw)
unfolding normalize_tax_policy
normalize_tax_policy-HasBoundedRates raw = (
  normalize_rate-le raw.vat_rate_bps 1200 (omega arith),
  λ c r e. ground (
    arith,
    normalize_rate-le (raw.ewt_rates_bps c) (or_else (ph_default_ewt c) 0) (ph_default_ewt-le c),
  ),
)
