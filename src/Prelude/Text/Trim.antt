-- ===== src/Prelude/Text/Trim.antt =====
-- `trim` leaves alone what it has trimmed.
use mathlib.Core.List.{reverse, reverse-append, reverse-reverse, reverse-cons}
use aipms.Prelude.{ℕ, ◌≡◌, refl, ap, sym, ◌∙◌, ◌⊎◌, inl, inr, false, [], ◌∷◌, ◌++◌, Bool-cases}
use aipms.Prelude.Text.{Text, is_space, trim_start, trim}

trim_start-snoc :
    (r : Text) (c : ℕ) → is_space c ≡ false → trim_start (r ++ c ∷ []) ≡ trim_start r ++ c ∷ []
unfolding trim_start
trim_start-snoc [] c h = rw h refl
trim_start-snoc (d ∷ r) c h = elim (Bool-cases (is_space d)) [
  | inl space ↦ rw space (trim_start-snoc r c h)
  | inr other ↦ rw other refl
]

trim_start-cases :
    (s : Text)
    → (trim_start s ≡ [])
      ⊎ ((c : ℕ) × (rest : Text) × (trim_start s ≡ c ∷ rest) × (is_space c ≡ false))
unfolding trim_start
trim_start-cases [] = inl refl
trim_start-cases (d ∷ r) = elim (Bool-cases (is_space d)) [
  | inl space ↦ rw space (trim_start-cases r)
  | inr other ↦ inr (d, r, rw other refl, other)
]

trim_start-starts : (c : ℕ) (s : Text) → is_space c ≡ false → trim_start (c ∷ s) ≡ c ∷ s
unfolding trim_start
trim_start-starts c s h = rw h refl

trim_start-nil : trim_start [] ≡ []
unfolding trim_start
trim_start-nil = refl

trim_start_idem : (s : Text) → trim_start (trim_start s) ≡ trim_start s
trim_start_idem s = elim (trim_start-cases s) [
  | inl empty ↦ rw empty trim_start-nil
  | inr (c, rest, starts, other) ↦ rw starts (trim_start-starts c rest other)
]

-- What is trimmed starts with what is left at the start.
trim-cons :
    (s : Text) (c : ℕ) (rest : Text)
    → trim_start s ≡ c ∷ rest
    → is_space c ≡ false
    → trim s ≡ c ∷ reverse (trim_start (reverse rest))
unfolding trim
trim-cons s c rest starts other =
    ap (λ t. reverse (trim_start (reverse t))) starts
    ∙ ap (λ t. reverse (trim_start t)) (reverse-cons c rest)
    ∙ ap reverse (trim_start-snoc (reverse rest) c other)
    ∙ reverse-append (trim_start (reverse rest)) (c ∷ [])

pub trim_idem : (s : Text) → trim (trim s) ≡ trim s
unfolding trim trim_start
trim_idem s =
    let u = reverse (trim_start s) in
    let back : trim_start (trim s) ≡ trim s → trim (trim s) ≡ trim s = λ e.
      ap (λ t. reverse (trim_start (reverse t))) e
      ∙ ap (λ t. reverse (trim_start t)) (reverse-reverse (trim_start u))
      ∙ ap reverse (trim_start_idem u) in
    elim (trim_start-cases s) [
      | inl empty ↦ back (rw empty trim_start-nil)
      | inr (c, rest, starts, other) ↦ back (
          ap trim_start (trim-cons s c rest starts other)
          ∙ trim_start-starts c (reverse (trim_start (reverse rest))) other
          ∙ sym (trim-cons s c rest starts other))
    ]
