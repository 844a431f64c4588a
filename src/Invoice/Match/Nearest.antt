-- ===== src/Invoice/Match/Nearest.antt =====
-- A ratio in basis points that rounds as it should, by exact division: what the match is promised can be had.
use Prim.Native.Nat.{div_helper}
use Prim.Native.Nat.div
use aipms.Prelude.{ℕ, zero, suc, ◌+◌, ◌*◌, ◌-◌, ◌/◌, ◌≤◌, ◌<◌, ◌≡◌, subst, arith}
use aipms.Invoice.Match.Laws.{Rounds}

-- The integer nearest to 10000 a / b, a half upwards.
unfoldable pub nearest_bps : ℕ → ℕ → ℕ
nearest_bps a b = (20000 * a + b) / (2 * b)

mul_suc : (m k : ℕ) → suc m * suc k ≡ suc m * k + suc m
mul_suc m k = grind arith

div_helper-bounds :
    (k m n j : ℕ)
    → j ≤ m
    → (suc m * div_helper k m n j + j ≤ suc m * k + m + n)
      × (suc m * k + m + n < suc m * div_helper k m n j + suc m + j)
div_helper-bounds k m zero j h = (omega (arith, h), omega (arith, h))
div_helper-bounds k m (suc n) zero h =
    let (low, high) = div_helper-bounds (suc k) m n m (omega arith) in
    (omega (arith, low, mul_suc m k), omega (arith, high, mul_suc m k))
div_helper-bounds k m (suc n) (suc j) h =
    let (low, high) = div_helper-bounds k m n j (omega (arith, h)) in
    (omega (arith, low), omega (arith, high))

div-bounds : (n d : ℕ) → (suc d * (n / suc d) ≤ n) × (n < suc d * (n / suc d) + suc d)
div-bounds n d =
    let e : n / suc d ≡ div_helper 0 d n d = div.suc n d in
    let (low, high) = div_helper-bounds 0 d n d (omega arith) in
    rw e (omega (arith, low), omega (arith, high))

at_least_whole_lem : (b q r : ℕ) → 20000 * b + b ≤ r → r < 2 * b * q + 2 * b → 0 < b → 10000 ≤ q
at_least_whole_lem b q r h k positive = grind arith

nearest_bps-bounds :
    (a b : ℕ)
    → 0 < b
    → (2 * b * nearest_bps a b ≤ 20000 * a + b) × (20000 * a + b < 2 * b * nearest_bps a b + 2 * b)
unfolding nearest_bps
nearest_bps-bounds a b positive =
    let n = 20000 * a + b in
    let e : suc (2 * b - 1) ≡ 2 * b = omega (arith, positive) in
    subst (λ d. (d * (n / d) ≤ n) × (n < d * (n / d) + d)) e (div-bounds n (2 * b - 1))

pub nearest_bps-Rounds : Rounds nearest_bps
nearest_bps-Rounds = record {
  nearest = λ a b positive small_a small_b.
      let (low, high) = nearest_bps-bounds a b positive in
      (omega (arith, high), omega (arith, low));
  at_least_whole = λ a b positive le.
      let (low, high) = nearest_bps-bounds a b positive in
      at_least_whole_lem b (nearest_bps a b) (20000 * a + b) (omega (arith, le)) high positive;
}
