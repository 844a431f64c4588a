-- ===== src/Invoice/Coverage/Held.antt =====
-- The value that invoices hold, when one of them is written or added.
use aipms.Prelude.{
  ℕ, ◌≡◌, refl, Bool, true, false, not, ◌&&◌, List, [], ◌∷◌, ◌++◌, inl, inr, arith, subst,
  Bool-cases, filter, update_where, ◌==◌, All, ==→eq,
}
use aipms.Prelude.Int.{ℤ, pos, ◌+ℤ◌, ◌≤ℤ◌, sum_of, int_laws}
use aipms.Database.{Invoice}

abbrev pub amount : Invoice → ℤ
amount i = i.amount_minor

-- What the invoices that pass a test hold.
abbrev pub held : (Invoice → Bool) → List Invoice → ℤ
held p is = sum_of amount (filter p is)

abbrev pub UniqueIds : List Invoice → Type 0
UniqueIds [] = Unit
UniqueIds (i ∷ is) = All (λ (j : Invoice). (j.id == i.id) ≡ false) is × UniqueIds is

abbrev pub has_id : ℕ → Invoice → Bool
has_id id i = i.id == id

abbrev pub but : ℕ → (Invoice → Bool) → Invoice → Bool
but id p i = not (has_id id i) && p i

abbrev pub NonNegative : List Invoice → Type 0
NonNegative is = All (λ (i : Invoice). pos 0 ≤ℤ i.amount_minor) is

-- A test that fewer invoices pass holds less.
pub held_mono :
    (p q : Invoice → Bool) (is : List Invoice)
    → NonNegative is
    → All (λ i. p i ≡ true → q i ≡ true) is
    → held p is ≤ℤ held q is
unfolding sum_of
held_mono p q [] h k = omega arith
held_mono p q (i ∷ is) h k =
    let rest = held_mono p q is h.1 k.1 in
    let stronger = k.0 in
    let positive = h.0 in
    elim (Bool-cases (p i)) [
      | inl passes ↦ rw (passes, stronger passes) (omega (int_laws, rest))
      | inr fails ↦ elim (Bool-cases (q i)) [
        | inl other ↦ rw (fails, other) (omega (int_laws, rest, positive))
        | inr neither ↦ rw (fails, neither) rest
      ]
    ]

-- A write that leaves the others as they are, where no row has the id.
pub held_elsewhere :
    (id : ℕ) (p : Invoice → Bool) (f : Invoice → Invoice) (is : List Invoice)
    → All (λ (i : Invoice). (i.id == id) ≡ false) is
    → held p (update_where (has_id id) f is) ≡ held (but id p) is
unfolding sum_of
held_elsewhere id p f [] other = refl
held_elsewhere id p f (i ∷ is) other =
    let rest = held_elsewhere id p f is other.1 in
    elim (Bool-cases (p i)) [
      | inl passes ↦ rw (other.0, passes) (rw rest refl)
      | inr fails ↦ rw (other.0, fails) rest
    ]

-- A write to one row adds at most its amount to what the others hold.
pub held-update :
    (id : ℕ) (p : Invoice → Bool) (f : Invoice → Invoice) (total : ℤ) (is : List Invoice)
    → UniqueIds is
    → pos 0 ≤ℤ total
    → All (λ (i : Invoice). (i.id == id) ≡ true → amount (f i) ≡ total) is
    → held p (update_where (has_id id) f is) ≤ℤ held (but id p) is +ℤ total
unfolding sum_of
held-update id p f total [] unique positive same = omega int_laws
held-update id p f total (i ∷ is) unique positive same = elim (Bool-cases (i.id == id)) [
  | inl hit ↦
      let key : i.id ≡ id = ==→eq i.id id hit in
      let rest =
        held_elsewhere id p f is
          (subst (λ k. All (λ (j : Invoice). (j.id == k) ≡ false) is) key unique.0) in
      let mine = same.0 hit in
      elim (Bool-cases (p (f i))) [
        | inl passes ↦ rw (hit, passes) (rw rest (rw mine (omega int_laws)))
        | inr fails ↦ rw (hit, fails) (rw rest (omega int_laws))
      ]
  | inr miss ↦
      let rest = held-update id p f total is unique.1 positive same.1 in
      elim (Bool-cases (p i)) [
        | inl passes ↦ rw (miss, passes) (omega (int_laws, rest))
        | inr fails ↦ rw (miss, fails) rest
      ]
]

-- A write after which the row does not pass the test.
pub held-update_out :
    (id : ℕ) (p : Invoice → Bool) (f : Invoice → Invoice) (is : List Invoice)
    → ((i : Invoice) → p (f i) ≡ false)
    → held p (update_where (has_id id) f is) ≡ held (but id p) is
unfolding sum_of
held-update_out id p f [] out = refl
held-update_out id p f (i ∷ is) out =
    let rest = held-update_out id p f is out in
    elim (Bool-cases (i.id == id)) [
      | inl hit ↦ rw (hit, out i) rest
      | inr miss ↦ elim (Bool-cases (p i)) [
        | inl passes ↦ rw (miss, passes) (rw rest refl)
        | inr fails ↦ rw (miss, fails) rest
      ]
    ]

-- A row is added that passes the test, or does not.
pub held-snoc :
    (p : Invoice → Bool) (is : List Invoice) (i : Invoice)
    → pos 0 ≤ℤ amount i
    → held p (is ++ i ∷ []) ≤ℤ held p is +ℤ amount i
unfolding sum_of
held-snoc p [] i positive = elim (Bool-cases (p i)) [
  | inl passes ↦ rw passes (omega int_laws)
  | inr fails ↦ rw fails (omega (int_laws, positive))
]
held-snoc p (j ∷ is) i positive =
    let rest = held-snoc p is i positive in
    elim (Bool-cases (p j)) [
      | inl passes ↦ rw passes (omega (int_laws, rest))
      | inr fails ↦ rw fails rest
    ]

pub held-snoc_not :
    (p : Invoice → Bool) (is : List Invoice) (i : Invoice)
    → p i ≡ false
    → held p (is ++ i ∷ []) ≡ held p is
unfolding sum_of
held-snoc_not p [] i no_hold = rw no_hold refl
held-snoc_not p (j ∷ is) i no_hold =
    let rest = held-snoc_not p is i no_hold in
    elim (Bool-cases (p j)) [ inl passes ↦ rw passes (rw rest refl) | inr fails ↦ rw fails rest ]
