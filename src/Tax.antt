-- ===== src/Tax.antt =====
-- The deterministic tax engine, packages/tax/src/index.ts. Amounts are integers in minor units, so
-- the sums are exact; `Math.round` rounds half up, and on `amount * bps / 10000` it is exact too
-- while the product is below 2 ^ 53, which the database's 32-bit amounts keep.
pub mod Laws
mod Tests
use aipms.Prelude.{
  ℕ, suc, ◌+◌, ◌*◌, ◌/◌, ◌-◌, Bool, true, false, not, ◌&&◌, Option, none, some, List, [], ◌∷◌, ◌++◌,
  String, leb, ◌==◌, or_else, if◌then◌else◌,
}
use aipms.Prelude.Int.{ℤ, pos, negsuc, ◌+ℤ◌, ◌-ℤ◌, ◌*ℤ◌, ltb_ℤ, sum_of}

pub data TaxClass : Type 0 where
  goods services professional rental other : TaxClass

pub record TaxLine : Type 0 where
  pub amount_minor : ℤ
  pub class : TaxClass
  pub vat_exempt : Bool

-- `Partial<Record<TaxClass, number>>`
abbrev pub EwtRates : Type 0
EwtRates = TaxClass → Option ℕ

pub record TaxPolicyConfig : Type 0 where
  pub vat_rate_bps : ℕ
  pub ewt_rates_bps : EwtRates
  pub version : Option String

pub record TaxLineComputation : Type 0 where
  pub amount_minor : ℤ
  pub vat_minor : ℤ
  pub ewt_minor : ℤ

pub record TaxComputation : Type 0 where
  pub policy_version : Option String
  pub gross_minor : ℤ
  pub vatable_minor : ℤ
  pub vat_minor : ℤ
  pub ewt_minor : ℤ
  pub net_payable_minor : ℤ
  pub lines : List TaxLineComputation

-- `Math.round(n / 10000)`: the floor of n / 10000 + 1 / 2. A negative -(k + 1) has the floor
-- -(k / 10000 + 1).
unfoldable pub round_minor : ℤ → ℤ
round_minor (pos n) = pos ((n + 5000) / 10000)
round_minor (negsuc k) =
    if leb k 4999 then pos ((4999 - k) / 10000) else negsuc ((k - 5000) / 10000)

unfoldable pub pct_bps : ℤ → Option ℕ → ℤ
unfolding round_minor
pct_bps amount none = pos 0
pct_bps amount (some bps) = if bps == 0 then pos 0 else round_minor (amount *ℤ pos bps)

unfoldable pub taxable : TaxLine → Bool
taxable line = not line.vat_exempt && ltb_ℤ (pos 0) line.amount_minor

unfoldable pub line_vat : TaxPolicyConfig → TaxLine → ℤ
unfolding taxable
line_vat policy line =
    if taxable line then pct_bps line.amount_minor (some policy.vat_rate_bps) else pos 0

unfoldable pub line_ewt : TaxPolicyConfig → TaxLine → ℤ
line_ewt policy line = pct_bps line.amount_minor (policy.ewt_rates_bps line.class)

unfoldable pub line_vatable : TaxLine → ℤ
unfolding taxable
line_vatable line = if taxable line then line.amount_minor else pos 0

-- The variables of the loop over the lines.
pub record Totals : Type 0 where
  pub vatable_minor : ℤ
  pub vat_minor : ℤ
  pub ewt_minor : ℤ
  pub line_result : List TaxLineComputation

unfoldable pub line_tax : TaxPolicyConfig → TaxLine → TaxLineComputation
line_tax policy line = record {
  amount_minor = line.amount_minor;
  vat_minor = line_vat policy line;
  ewt_minor = line_ewt policy line;
}

-- The body of the loop.
abbrev pub tax_step : TaxPolicyConfig → TaxLine → Totals → Totals
tax_step policy line t = record {
  vatable_minor = t.vatable_minor +ℤ line_vatable line;
  vat_minor = t.vat_minor +ℤ line_vat policy line;
  ewt_minor = t.ewt_minor +ℤ line_ewt policy line;
  line_result = t.line_result ++ line_tax policy line ∷ [];
}

unfoldable pub tax_loop : TaxPolicyConfig → List TaxLine → Totals → Totals
tax_loop policy [] t = t
tax_loop policy (line ∷ lines) t = tax_loop policy lines (tax_step policy line t)

unfoldable pub compute_tax : List TaxLine → TaxPolicyConfig → TaxComputation
unfolding tax_loop
compute_tax lines policy =
    let t =
      tax_loop policy lines (record {
        vatable_minor = pos 0;
        vat_minor = pos 0;
        ewt_minor = pos 0;
        line_result = [];
      }) in
    let gross = sum_of (λ (l : TaxLine). l.amount_minor) lines in
    record {
      policy_version = policy.version;
      gross_minor = gross;
      vatable_minor = t.vatable_minor;
      vat_minor = t.vat_minor;
      ewt_minor = t.ewt_minor;
      net_payable_minor = gross +ℤ t.vat_minor -ℤ t.ewt_minor;
      lines = t.line_result;
    }

abbrev pub ph_default_ewt : EwtRates
ph_default_ewt TaxClass.goods = some 100
ph_default_ewt TaxClass.services = some 200
ph_default_ewt TaxClass.professional = some 500
ph_default_ewt TaxClass.rental = some 500
ph_default_ewt TaxClass.other = some 0

abbrev pub ph_default_policy : TaxPolicyConfig
ph_default_policy = record {
  vat_rate_bps = 1200;
  ewt_rates_bps = ph_default_ewt;
  version = some "ph-v1";
}

-- A rate of a stored policy, as `normalizeRate` reads it: missing or null, no finite number, or the
-- finite number `num / suc den`.
pub data RawRate : Type 0 where
  absent not_finite : RawRate
  finite : ℤ → ℕ → RawRate

-- `Math.round(num / den)` of a number that is not negative.
abbrev round_div : ℕ → ℕ → ℕ
round_div num den = (2 * num + den) / (2 * den)

unfoldable pub normalize_rate : RawRate → ℕ → ℕ
normalize_rate absent fallback = fallback
normalize_rate not_finite fallback = fallback
normalize_rate (finite (negsuc k) den) fallback = fallback
normalize_rate (finite (pos n) den) fallback =
    let rounded = round_div n (suc den) in if leb rounded 10000 then rounded else fallback

-- The parts of a stored policy that `normalizeTaxPolicy` reads; a config or a table of rates that
-- is no object has all its parts absent.
pub record RawPolicy : Type 0 where
  pub vat_rate_bps : RawRate
  pub ewt_rates_bps : TaxClass → RawRate
  pub version : Option String

unfoldable pub normalize_tax_policy : RawPolicy → TaxPolicyConfig
unfolding normalize_rate
normalize_tax_policy raw = record {
  vat_rate_bps = normalize_rate raw.vat_rate_bps 1200;
  ewt_rates_bps = λ c. some (normalize_rate (raw.ewt_rates_bps c) (or_else (ph_default_ewt c) 0));
  version = raw.version;
}
