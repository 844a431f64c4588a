-- ===== src/Money/Laws.antt =====
-- The checks at the money boundary.
use aipms.Prelude.{
  ℕ, ◌≡◌, ◌≢◌, ◌↔◌, refl, subst, true, false, inl, inr, Bool-cases, List, [], ◌∷◌, ok, >>=-eq-ok,
  All, All-imp, arith,
}
use aipms.Prelude.Int.{ℤ, pos, ◌≤ℤ◌}
use aipms.Prelude.Text.{
  Text, text_eq→eq, text_eq_refl, trim, to_upper_case, is_space, upper_unit, trim_start,
}
use aipms.Money.{
  database_int_max, assert_database_int, is_code, normalize_currency_code, includes, currency_set,
  is_letter, only_currency, assert_single_currency,
}

-- The guard gives `w` for the amount `v` exactly when they are equal and in the range from 0 to 2
-- ^ 31 - 1.
pub assert_database_int_iff :
    (v w : ℤ)
    → (assert_database_int v ≡ ok w) ↔ ((v ≡ w) × (pos 0 ≤ℤ v) × (v ≤ℤ pos database_int_max))
unfolding assert_database_int
assert_database_int_iff v w = (λ h. ground arith, λ h. ground arith)

letter-not_space : (c : ℕ) → is_letter c ≡ true → is_space c ≡ false
unfolding is_letter is_space
letter-not_space c h = ground arith

letter-upper : (c : ℕ) → is_letter c ≡ true → upper_unit c ≡ c ∷ []
unfolding is_letter upper_unit
letter-upper c h = ground arith

-- Three letters are left alone by `trim` and `toUpperCase`.
letters-trim :
    (a b c : ℕ) → is_space a ≡ false → is_space c ≡ false → trim (a ∷ b ∷ c ∷ []) ≡ a ∷ b ∷ c ∷ []
unfolding trim trim_start
letters-trim a b c ha hc = rw (ha, trim_start) (rw (hc, trim_start) refl)

is_code-letters :
    (a b c : ℕ)
    → is_code (a ∷ b ∷ c ∷ []) ≡ true
    → (is_letter a ≡ true) × (is_letter b ≡ true) × (is_letter c ≡ true)
unfolding is_code
is_code-letters a b c h = ground arith

is_code-fixed : (t : Text) → is_code t ≡ true → to_upper_case (trim t) ≡ t
unfolding is_code to_upper_case
is_code-fixed [] h = cc
is_code-fixed (a ∷ []) h = cc
is_code-fixed (a ∷ b ∷ []) h = cc
is_code-fixed (a ∷ b ∷ c ∷ d ∷ t) h = cc
is_code-fixed (a ∷ b ∷ c ∷ []) h =
    let (la, lb, lc) = is_code-letters a b c h in
    rw (letters-trim a b c (letter-not_space a la) (letter-not_space c lc))
      (rw (to_upper_case, letter-upper a la, letter-upper b lb, letter-upper c lc))

normalize-is_code : (v c : Text) → normalize_currency_code v ≡ ok c → is_code c ≡ true
unfolding normalize_currency_code
normalize-is_code v c h = ground arith

-- What normalization gives is a code of three capital letters, and normalizing that again gives it
-- back; a text that is such a code already is given back.
pub normalize_currency_code_lem :
    (v : Text)
    → ((c : Text)
        → normalize_currency_code v ≡ ok c
        → (is_code c ≡ true) × (normalize_currency_code c ≡ ok c))
      × (is_code v ≡ true → normalize_currency_code v ≡ ok v)
unfolding normalize_currency_code
normalize_currency_code_lem v = (λ c h. let k = normalize-is_code v c h in (k, fixed c k), fixed v)
  where
    fixed : (t : Text) → is_code t ≡ true → normalize_currency_code t ≡ ok t
    fixed t h = rw (is_code-fixed t h, h)

includes-cons_self : (codes : List Text) (c : Text) → includes (c ∷ codes) c ≡ true
includes-cons_self codes c = rw (text_eq_refl c)

includes-grow :
    (codes : List Text) (c x : Text) → includes codes x ≡ true → includes (c ∷ codes) x ≡ true
includes-grow codes c x h = ground arith

abbrev IsCodeOf : List Text → Text → Type 0
IsCodeOf codes v = (c : Text) × (normalize_currency_code v ≡ ok c) × (includes codes c ≡ true)

-- The set holds the code of every value.
currency_set-All :
    (values codes : List Text) → currency_set values ≡ ok codes → All (IsCodeOf codes) values
unfolding currency_set
currency_set-All [] codes h = tt
currency_set-All (v ∷ values) codes h =
    let (c, hc, rest) = >>=-eq-ok (normalize_currency_code v) _ h in
    let (codes', hs, last) = >>=-eq-ok (currency_set values) _ rest in
    elim (Bool-cases (includes codes' c)) [
      | inl old ↦
          subst (λ cs. All (IsCodeOf cs) (v ∷ values)) (ground (arith, last))
            ((c, hc, old), currency_set-All values codes' hs)
      | inr new ↦
          subst (λ cs. All (IsCodeOf cs) (v ∷ values)) {x = c ∷ codes'} (ground (arith, last))
            (
              (c, hc, includes-cons_self codes' c),
              All-imp (λ w k. (k.0, k.1, includes-grow codes' c k.0 k.2)) values
                  (currency_set-All values codes' hs),
            )
    ]

currency_set-same :
    (v : Text) (values : List Text) (c : Text)
    → All (λ w. normalize_currency_code w ≡ ok c) (v ∷ values)
    → currency_set (v ∷ values) ≡ ok (c ∷ [])
unfolding currency_set
currency_set-same v [] c h = rw (h.0)
currency_set-same v (w ∷ values) c h =
    rw (h.0) (rw (currency_set-same w values c h.1) (rw (text_eq_refl c)))

only_currency-eq_ok : (codes : List Text) (c : Text) → only_currency codes ≡ ok c → codes ≡ c ∷ []
unfolding only_currency
only_currency-eq_ok [] c h = cc
only_currency-eq_ok (a ∷ []) c h = ground arith
only_currency-eq_ok (a ∷ b ∷ codes) c h = cc

IsCodeOf-only : (c v : Text) → IsCodeOf (c ∷ []) v → normalize_currency_code v ≡ ok c
IsCodeOf-only c v (x, hx, m) = let e : c ≡ x = text_eq→eq c x (ground (arith, m)) in rw e hx

single-forward :
    (values : List Text) (c : Text)
    → assert_single_currency values ≡ ok c
    → (values ≢ []) × All (λ v. normalize_currency_code v ≡ ok c) values
unfolding assert_single_currency
single-forward [] c h = absurd (unfold currency_set only_currency in (cc))
single-forward (v ∷ values) c h =
    let (codes, hs, last) = >>=-eq-ok (currency_set (v ∷ values)) only_currency h in
    let only = only_currency-eq_ok codes c last in
    (
      λ e. cc,
      All-imp (IsCodeOf-only c) (v ∷ values)
          (currency_set-All (v ∷ values) (c ∷ []) (rw (← only) hs)),
    )

single-backward :
    (values : List Text) (c : Text)
    → values ≢ []
    → All (λ v. normalize_currency_code v ≡ ok c) values
    → assert_single_currency values ≡ ok c
unfolding assert_single_currency only_currency
single-backward [] c ne h = absurd (ne refl)
single-backward (v ∷ values) c ne h = rw (currency_set-same v values c h)

-- Values have the single currency `c` exactly when there is a value and every value normalizes to
-- `c`.
pub assert_single_currency_iff :
    (values : List Text) (c : Text)
    → (assert_single_currency values ≡ ok c)
      ↔ ((values ≢ []) × All (λ v. normalize_currency_code v ≡ ok c) values)
assert_single_currency_iff values c =
    (single-forward values c, λ h. single-backward values c h.0 h.1)
