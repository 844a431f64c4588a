-- ===== src/Prelude/Rows.antt =====
-- Counting and updating the rows of a table.
pub mod Keys
use aipms.Prelude.{
  ◌+◌, ◌≤◌, ◌≡◌, refl, Bool, true, false, ◌&&◌, ◌||◌, some, List, [], ◌∷◌, ◌++◌, inl, inr, arith,
  Bool-cases, any, all, filter, find?, count, update_where, All, All-imp, if◌then◌else◌,
}

module _ {ℓ} {A : Type ℓ} where
  pub count-append : (p : A → Bool) (xs ys : List A) → count p (xs ++ ys) ≡ count p xs + count p ys
  count-append p [] ys = omega arith
  count-append p (x ∷ xs) ys = ground (arith, count-append p xs ys)

  pub any-append : (p : A → Bool) (xs ys : List A) → any p (xs ++ ys) ≡ (any p xs || any p ys)
  any-append p [] ys = refl
  any-append p (x ∷ xs) ys = ground (arith, any-append p xs ys)

  -- What holds of all rows before and of all rows that are added.
  pub All-append {κ} :
      (Q : A → Type κ) (front back : List A) → All Q front → All Q back → All Q (front ++ back)
  All-append Q [] back none_in added = added
  All-append Q (row ∷ front) back held added = (held.0, All-append Q front back held.1 added)

  -- Fewer rows pass a stronger test.
  pub count-imp :
      (p q : A → Bool) (xs : List A)
      → All (λ x. q x ≡ true → p x ≡ true) xs
      → count q xs ≤ count p xs
  count-imp p q [] h = omega arith
  count-imp p q (x ∷ xs) h = let k = h.0 in ground (arith, count-imp p q xs h.1)

  pub count-zero : (p : A → Bool) (xs : List A) → All (λ x. p x ≡ false) xs → count p xs ≡ 0
  count-zero p [] h = refl
  count-zero p (x ∷ xs) h = rw h.0 (count-zero p xs h.1)

  -- An update that makes no row pass a test does not raise the number of rows that do.
  pub count-update_where-le :
      (p q : A → Bool) (f : A → A) (xs : List A)
      → All (λ x. p x ≡ true → q (f x) ≡ true → q x ≡ true) xs
      → count q (update_where p f xs) ≤ count q xs
  count-update_where-le p q f [] h = omega arith
  count-update_where-le p q f (x ∷ xs) h =
      let k = h.0 in ground (arith, count-update_where-le p q f xs h.1)

  pub any-update_where :
      (p q : A → Bool) (f : A → A) (xs : List A)
      → ((x : A) → p x ≡ true → q (f x) ≡ q x)
      → any q (update_where p f xs) ≡ any q xs
  any-update_where p q f [] h = refl
  any-update_where p q f (x ∷ xs) h = let k = h x in ground (arith, any-update_where p q f xs h)

  pub any-update_where-imp :
      (p q : A → Bool) (f : A → A) (xs : List A)
      → ((x : A) → p x ≡ true → q (f x) ≡ true → q x ≡ true)
      → any q (update_where p f xs) ≡ true
      → any q xs ≡ true
  any-update_where-imp p q f [] h e = e
  any-update_where-imp p q f (x ∷ xs) h e =
      let k = h x in ground (arith, any-update_where-imp p q f xs h)

  pub All-update_where {κ} :
      (P : A → Type κ) (p : A → Bool) (f : A → A) (xs : List A)
      → All P xs
      → All (λ x. p x ≡ true → P x → P (f x)) xs
      → All P (update_where p f xs)
  All-update_where P p f [] h k = tt
  All-update_where P p f (x ∷ xs) h k = elim (Bool-cases (p x)) [
    | inl e ↦ rw e (k.0 e h.0, All-update_where P p f xs h.1 k.1)
    | inr e ↦ rw e (h.0, All-update_where P p f xs h.1 k.1)
  ]

  pub All-any-false : (p : A → Bool) (xs : List A) → any p xs ≡ false → All (λ x. p x ≡ false) xs
  All-any-false p [] h = tt
  All-any-false p (x ∷ xs) h = (ground arith, All-any-false p xs (ground arith))

  pub All-all : (p : A → Bool) (xs : List A) → all p xs ≡ true → All (λ x. p x ≡ true) xs
  All-all p [] h = tt
  All-all p (x ∷ xs) h = (ground arith, All-all p xs (ground arith))

  pub any-find? :
      (p q : A → Bool) (xs : List A) {a : A}
      → find? p xs ≡ some a
      → q a ≡ true
      → any (λ x. p x && q x) xs ≡ true
  any-find? p q [] h e = cc
  any-find? p q (x ∷ xs) {a = a} h e = ground (arith, any-find? p q xs {a = a})

  pub All-count-zero : (p : A → Bool) (xs : List A) → count p xs ≡ 0 → All (λ x. p x ≡ false) xs
  All-count-zero p [] z = tt
  All-count-zero p (x ∷ xs) z = (ground arith, All-count-zero p xs (ground arith))

  -- Where a test passes at most once, the row that is found is the only one.
  pub find?-only :
      (p : A → Bool) (xs : List A) (a : A)
      → count p xs ≤ 1
      → find? p xs ≡ some a
      → All (λ x. p x ≡ true → x ≡ a) xs
  find?-only p [] a h e = tt
  find?-only p (x ∷ xs) a h e = elim (Bool-cases (p x)) [
    | inl hit ↦ (
      λ _. ground arith,
      All-imp {Q = λ y. p y ≡ true → y ≡ a} (λ y n hit'. absurd (ground arith)) xs
          (All-count-zero p xs (ground arith)),
    )
    | inr miss ↦ (λ hit. absurd (ground arith), find?-only p xs a (ground arith) (ground arith))
  ]

module _ {ℓ} {A : Type ℓ} where
  -- What is found after an update that keeps the key.
  pub find?-update_where :
      (key p : A → Bool) (f : A → A) (xs : List A) (a : A)
      → ((x : A) → key (f x) ≡ key x)
      → find? key xs ≡ some a
      → find? key (update_where p f xs) ≡ some (if p a then f a else a)
  find?-update_where key p f [] a same e = cc
  find?-update_where key p f (x ∷ xs) a same e = elim (Bool-cases (key x)) [
    | inl hit ↦
        let here : x ≡ a = ground arith in
        elim (Bool-cases (p x)) [
          | inl t ↦ rw (t, same x, hit) (rw (← here, t))
          | inr t ↦ rw (t, hit) (rw (← here, t))
        ]
    | inr miss ↦
        let rest = find?-update_where key p f xs a same (ground arith) in
        elim (Bool-cases (p x)) [ inl t ↦ rw (t, same x, miss) rest | inr t ↦ rw (t, miss) rest ]
  ]

  pub count-update_where_zero :
      (key p q : A → Bool) (f : A → A) (xs : List A)
      → ((x : A) → key (f x) ≡ key x)
      → count key xs ≡ 0
      → count (λ x. key x && q x) (update_where (λ x. key x && p x) f xs) ≡ 0
  count-update_where_zero key p q f [] same h = refl
  count-update_where_zero key p q f (x ∷ xs) same h =
      let k = same x in ground (arith, count-update_where_zero key p q f xs same)

  pub count-and-le : (key p : A → Bool) (xs : List A) → count (λ x. key x && p x) xs ≤ count key xs
  count-and-le key p [] = omega arith
  count-and-le key p (x ∷ xs) = ground (arith, count-and-le key p xs)

  -- The row of a key, once updated so that a test fails, leaves no row of the key that passes it.
  pub count-after_update :
      (key p q : A → Bool) (f : A → A) (xs : List A)
      → ((x : A) → key (f x) ≡ key x)
      → ((x : A) → q (f x) ≡ false)
      → count key xs ≤ 1
      → count (λ x. key x && p x) xs ≡ 1
      → count (λ x. key x && q x) (update_where (λ x. key x && p x) f xs) ≡ 0
  count-after_update key p q f [] same fails one hit = refl
  count-after_update key p q f (x ∷ xs) same fails one hit =
      let k = same x in
      let q' = fails x in
      ground (
        arith,
        count-after_update key p q f xs same fails,
        count-update_where_zero key p q f xs same,
        count-and-le key p xs,
      )

module _ {ℓ κ} {A : Type ℓ} where
  pub All-filter : (P : A → Type κ) (p : A → Bool) (xs : List A) → All P xs → All P (filter p xs)
  All-filter P p [] h = tt
  All-filter P p (x ∷ xs) h = elim (Bool-cases (p x)) [
    | inl hit ↦ rw hit (h.0, All-filter P p xs h.1)
    | inr miss ↦ rw miss (All-filter P p xs h.1)
  ]

module _ {ℓ} {A : Type ℓ} where
  pub any-filter : (p q : A → Bool) (xs : List A) → any q (filter p xs) ≡ any (λ x. p x && q x) xs
  any-filter p q [] = refl
  any-filter p q (x ∷ xs) = ground (arith, any-filter p q xs)

  -- A row that passes a test is one that does.
  pub All-any : (xs : List A) → All (λ x. (p : A → Bool) → p x ≡ true → any p xs ≡ true) xs
  All-any [] = tt
  All-any (x ∷ xs) = (
    λ p hit. ground arith,
    All-imp {Q = λ y. (p : A → Bool) → p y ≡ true → any p (x ∷ xs) ≡ true}
        (λ y h p hit. let rest = h p hit in ground arith) xs (All-any xs),
  )
