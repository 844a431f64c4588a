-- ===== src/Prelude/Rows/Keys.antt =====
-- Rows of a table where a key is held by one row at most.
use aipms.Prelude.{
  ◌≤◌, ◌≡◌, refl, Bool, true, ◌&&◌, some, List, [], ◌∷◌, inl, inr, arith, Bool-cases, find?, count,
}
use aipms.Prelude.Rows.{count-and-le}

module _ {ℓ} {A : Type ℓ} where
  -- The one row of a key that passes a test is the row that is found for the key.
  pub find?-of_count :
      (key p : A → Bool) (xs : List A)
      → count key xs ≤ 1
      → count (λ x. key x && p x) xs ≡ 1
      → (a : A) × (find? key xs ≡ some a) × (p a ≡ true)
  find?-of_count key p [] one hit = absurd (omega arith)
  find?-of_count key p (x ∷ xs) one hit = elim (Bool-cases (key x)) [
    | inl own ↦ (x, rw own refl, ground (arith, count-and-le key p xs))
    | inr other ↦
        let (a, found, passes) = find?-of_count key p xs (ground arith) (ground arith) in
        (a, rw other found, passes)
  ]

  find?-of_none :
      (key p : A → Bool) (xs : List A) (a : A)
      → count key xs ≡ 0
      → find? (λ x. key x && p x) xs ≡ some a
      → ⊥
  find?-of_none key p [] a zero found = cc
  find?-of_none key p (x ∷ xs) a zero found = ground (arith, find?-of_none key p xs a)

  -- What a stronger test finds for a key is what the key finds.
  pub find?-of_stronger :
      (key p : A → Bool) (xs : List A) (a : A)
      → count key xs ≤ 1
      → find? (λ x. key x && p x) xs ≡ some a
      → find? key xs ≡ some a
  find?-of_stronger key p [] a one found = cc
  find?-of_stronger key p (x ∷ xs) a one found = elim (Bool-cases (key x)) [
    | inl own ↦ elim (Bool-cases (p x)) [
      | inl passes ↦ ground arith
      | inr fails ↦
          let rest : find? (λ y. key y && p y) xs ≡ some a = ground arith in
          let nowhere : count key xs ≡ 0 = ground arith in
          absurd (find?-of_none key p xs a nowhere rest)
    ]
    | inr other ↦ ground (arith, find?-of_stronger key p xs a)
  ]

  pub count-of_find? :
      (key p : A → Bool) (xs : List A) (a : A)
      → count key xs ≤ 1
      → find? key xs ≡ some a
      → p a ≡ true
      → count (λ x. key x && p x) xs ≡ 1
  count-of_find? key p [] a one found passes = cc
  count-of_find? key p (x ∷ xs) a one found passes = elim (Bool-cases (key x)) [
    | inl own ↦
        let same : x ≡ a = ground arith in
        let here : p x ≡ true = rw same passes in ground (arith, count-and-le key p xs)
    | inr other ↦ ground (arith, count-of_find? key p xs a)
  ]
