-- ===== src/Tax/Tests.antt =====
-- Runs of the tax engine.
use aipms.Prelude.{◌≡◌, ◌≤◌, ◌+◌, ◌*◌, refl, true, false, some, none, [], ◌∷◌, map, arith}
use aipms.Prelude.Int.{pos, negsuc, pos_part, neg_part, sum_of, ◌+ℤ◌, ◌-ℤ◌, ◌≤ℤ◌}
use aipms.Tax.{
  TaxClass, TaxLine, TaxPolicyConfig, RawRate, round_minor, pct_bps, line_vat, line_ewt,
  line_vatable, line_tax, compute_tax, normalize_tax_policy,
}
use aipms.Tax.Laws.{
  HasBoundedRates, compute_tax_totals, compute_tax_bounds, pct_bps_nearest,
  normalize_tax_policy-HasBoundedRates,
}

round_half_down : round_minor (negsuc 4999) ≡ pos 0
unfolding round_minor
round_half_down = refl

round_below : round_minor (negsuc 5000) ≡ negsuc 0
unfolding round_minor
round_below = refl

abbrev policy : TaxPolicyConfig
policy =
    normalize_tax_policy (record {
      vat_rate_bps = RawRate.absent;
      ewt_rates_bps = λ c. RawRate.absent;
      version = none;
    })

abbrev pens : TaxLine
pens = record { amount_minor = pos 1000; class = TaxClass.goods; vat_exempt = false }

abbrev advice : TaxLine
advice = record { amount_minor = pos 555; class = TaxClass.professional; vat_exempt = true }

compute_tax_totals_example :
    let c = compute_tax (pens ∷ advice ∷ []) policy in
    (c.gross_minor ≡ sum_of (λ (l : TaxLine). l.amount_minor) (pens ∷ advice ∷ []))
    × (c.vatable_minor ≡ sum_of line_vatable (pens ∷ advice ∷ []))
    × (c.vat_minor ≡ sum_of (line_vat policy) (pens ∷ advice ∷ []))
    × (c.ewt_minor ≡ sum_of (line_ewt policy) (pens ∷ advice ∷ []))
    × (c.net_payable_minor ≡ c.gross_minor +ℤ c.vat_minor -ℤ c.ewt_minor)
    × (c.lines ≡ map (line_tax policy) (pens ∷ advice ∷ []))
compute_tax_totals_example = compute_tax_totals (pens ∷ advice ∷ []) policy

compute_tax_bounds_example :
    let c = compute_tax (pens ∷ advice ∷ []) policy in
    (pos 0 ≤ℤ c.vat_minor)
    × (c.vat_minor ≤ℤ c.vatable_minor)
    × (c.vatable_minor ≤ℤ c.gross_minor)
    × (pos 0 ≤ℤ c.ewt_minor)
    × (c.ewt_minor ≤ℤ c.gross_minor)
    × (pos 0 ≤ℤ c.net_payable_minor)
compute_tax_bounds_example =
    compute_tax_bounds (pens ∷ advice ∷ []) policy
      (normalize_tax_policy-HasBoundedRates (record {
        vat_rate_bps = RawRate.absent;
        ewt_rates_bps = λ c. RawRate.absent;
        version = none;
      }))
      (omega arith, (omega arith, tt))

pct_bps_nearest_example :
    let r = pct_bps (negsuc 41) (some 1200) in
    (10000 * pos_part r + 42 * 1200 ≤ 0 * 1200 + 10000 * neg_part r + 5000)
    × (0 * 1200 + 10000 * neg_part r + 1 ≤ 10000 * pos_part r + 42 * 1200 + 5000)
pct_bps_nearest_example = pct_bps_nearest (negsuc 41) 1200

normalize_tax_policy-HasBoundedRates_example : HasBoundedRates (
    normalize_tax_policy (record {
      vat_rate_bps = RawRate.finite (pos 99999) 1;
      ewt_rates_bps = λ c. RawRate.not_finite;
      version = none;
    }))
normalize_tax_policy-HasBoundedRates_example = normalize_tax_policy-HasBoundedRates (record {
  vat_rate_bps = RawRate.finite (pos 99999) 1;
  ewt_rates_bps = λ c. RawRate.not_finite;
  version = none;
})
