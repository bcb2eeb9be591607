-- ===== src/Amount/Scaling.antt =====
-- What the scaled fee is worth, next to the fee in 18 decimals.
use native.Mathlib.Nat.{
  pow-suc, pow-zero, add-zero, mul-one, mul_assoc, le_of_mul-le-mul_right, mul-le-mul_right,
  lt_of_mul-lt-mul_right,
}
use native.Mathlib.Decide.{dec_lt}
use mathlib.Core.Path.{◌≡⟨◌⟩◌, ◌∎}
use arb_bridge_peripherals.Base.{
  ℕ, zero, suc, ◌+◌, ◌-◌, ◌*◌, ◌/◌, ◌^◌, ◌≤◌, ◌<◌, ◌≡◌, ◌∙◌, sym, ap, arith, ltb, if◌then◌else◌,
}
use arb_bridge_peripherals.Amount.{scaled_amount, prescaled_amount}

pow-add : (b m n : ℕ) → b ^ (m + n) ≡ b ^ m * b ^ n
pow-add b m zero = simp (pow-zero, mul-one, add-zero)
pow-add b m (suc n) =
    b ^ (m + suc n)
    ≡⟨ ap (λ k. b ^ k) (omega arith) ⟩ b ^ suc (m + n)
    ≡⟨ pow-suc b (m + n) ⟩ b ^ (m + n) * b
    ≡⟨ ap (λ k. k * b) (pow-add b m n) ⟩ b ^ m * b ^ n * b
    ≡⟨ mul_assoc (b ^ m) (b ^ n) b ⟩ b ^ m * (b ^ n * b)
    ≡⟨ ap (λ k. b ^ m * k) (sym (pow-suc b n)) ⟩ b ^ m * b ^ suc n ∎

ten_pos : (k : ℕ) → 0 < 10 ^ k
ten_pos zero = omega arith
ten_pos (suc k) = omega (arith, ten_pos k, pow-suc 10 k)

-- The rounding of both functions, at any positive factor.
abbrev round_up : ℕ → ℕ → ℕ
round_up a u = if ltb (a / u * u) a then a / u + 1 else a / u

round_up_bounds : (a u : ℕ) → 0 < u → (a ≤ round_up a u * u) × (round_up a u * u < a + u)
round_up_bounds a u h = grind arith

-- The least number of units that is worth the amount.
round_up-least : (a u t : ℕ) → 0 < u → a ≤ t * u → round_up a u ≤ t
round_up-least a u t h c = below (round_up a u) (round_up_bounds a u h).1
  where
    below : (r : ℕ) → r * u < a + u → r ≤ t
    below r lt = let strict : r < suc t = lt_of_mul-lt-mul_right u (omega arith) in omega arith

scaled_amount-le18 : (d a : ℕ) → d ≤ 18 → scaled_amount d a ≡ round_up a (10 ^ (18 - d))
unfolding scaled_amount
scaled_amount-le18 d a h = elim (dec_lt d 18) [
  | yes p ↦ ground arith
  | no p ↦ rw (let e : d ≡ 18 = omega arith in e) (ground arith)
]

scaled_amount-ge18 : (d a : ℕ) → 18 < d → scaled_amount d a ≡ a * 10 ^ (d - 18)
unfolding scaled_amount
scaled_amount-ge18 d a h = ground arith

-- The two scripts scale alike, whatever the token's decimals are.
pub prescaled_amount-scaled_amount : (d a : ℕ) → prescaled_amount d a ≡ scaled_amount d a
unfolding scaled_amount prescaled_amount
prescaled_amount-scaled_amount d a = ground arith

-- In 18 decimals again: `u * v` is the whole factor, `v` what one unit of the token is short of.
module _ (a u v : ℕ) (u_pos : 0 < u) (v_pos : 0 < v) where
  round_up-covers : a * v ≤ round_up a u * (u * v)
  round_up-covers =
      let r = round_up a u in
      omega (arith, mul_assoc r u v, mul-le-mul_right v (round_up_bounds a u u_pos).0)

  round_up-least_scaled : (t : ℕ) → a * v ≤ t * (u * v) → round_up a u ≤ t
  round_up-least_scaled t h =
      round_up-least a u t u_pos (le_of_mul-le-mul_right (rw mul_assoc h) v_pos)

-- Where the token has more decimals than 18, nothing is rounded.
module _ (a w n : ℕ) (n_pos : 0 < n) where
  exact-covers : a * (w * n) ≤ a * w * n
  exact-covers = omega (arith, mul_assoc a w n)

  exact-least : (t : ℕ) → a * (w * n) ≤ t * n → a * w ≤ t
  exact-least t h = le_of_mul-le-mul_right (rw mul_assoc h) n_pos

ten_cong : (m n : ℕ) → m ≡ n → 10 ^ m ≡ 10 ^ n
ten_cong m n e = cc

power_above : (d : ℕ) → 18 < d → 10 ^ (d - 18) * 10 ^ 18 ≡ 10 ^ d
power_above d h = sym (pow-add 10 (d - 18) 18) ∙ ten_cong (d - 18 + 18) d (omega arith)

power_split : (d : ℕ) → d ≤ 18 → 10 ^ (18 - d) * 10 ^ d ≡ 10 ^ 18
power_split d h = sym (pow-add 10 (18 - d) d) ∙ ten_cong (18 - d + d) 18 (omega arith)

-- The scaled fee is the least number of the token's units that is worth the fee, whatever the
-- token's decimals `d` are: `t` units are worth `t * 10 ^ (18 - d)` in 18 decimals, which is compared
-- here with both sides multiplied by `10 ^ d`.
pub scaled_amount-IsLeast :
    (d a : ℕ)
    → (a * 10 ^ d ≤ scaled_amount d a * 10 ^ 18)
      × ((t : ℕ) → a * 10 ^ d ≤ t * 10 ^ 18 → scaled_amount d a ≤ t)
scaled_amount-IsLeast d a = elim (dec_lt 18 d) [
  | no p ↦
      let e = power_split d (omega arith) in
      rw (scaled_amount-le18 d a (omega arith), ← e)
        (
          round_up-covers a (10 ^ (18 - d)) (10 ^ d) (ten_pos _) (ten_pos _),
          round_up-least_scaled a (10 ^ (18 - d)) (10 ^ d) (ten_pos _) (ten_pos _),
        )
  | yes p ↦
      rw (scaled_amount-ge18 d a p, ← (power_above d p))
        (
          exact-covers a (10 ^ (d - 18)) (10 ^ 18) (ten_pos 18),
          exact-least a (10 ^ (d - 18)) (10 ^ 18) (ten_pos 18),
        )
]

round_up-add :
    (a b u : ℕ)
    → 0 < u
    → (round_up (a + b) u ≤ round_up a u + round_up b u)
      × (round_up a u + round_up b u ≤ round_up (a + b) u + 1)
round_up-add a b u h =
    sums (round_up a u) (round_up b u) (round_up (a + b) u) (round_up_bounds a u h)
      (round_up_bounds b u h) (round_up_bounds (a + b) u h)
  where
    sums :
        (p q r : ℕ)
        → (a ≤ p * u) × (p * u < a + u)
        → (b ≤ q * u) × (q * u < b + u)
        → (a + b ≤ r * u) × (r * u < a + b + u)
        → (r ≤ p + q) × (p + q ≤ r + 1)
    sums p q r hp hq hr =
        let low : r < suc (p + q) = lt_of_mul-lt-mul_right u (omega arith) in
        let high : p + q < suc (suc r) = lt_of_mul-lt-mul_right u (omega arith) in
        (omega arith, omega arith)

-- Scaling two fees apart never falls short of scaling their sum, and exceeds it by one unit at most.
pub scaled_amount-add :
    (d a b : ℕ)
    → (scaled_amount d (a + b) ≤ scaled_amount d a + scaled_amount d b)
      × (scaled_amount d a + scaled_amount d b ≤ scaled_amount d (a + b) + 1)
scaled_amount-add d a b = elim (dec_lt 18 d) [
  | no p ↦
      rw
        (
          scaled_amount-le18 d a (omega arith),
          scaled_amount-le18 d b (omega arith),
          scaled_amount-le18 d (a + b) (omega arith),
        )
        (round_up-add a b (10 ^ (18 - d)) (ten_pos _))
  | yes p ↦
      rw (scaled_amount-ge18 d a p, scaled_amount-ge18 d b p, scaled_amount-ge18 d (a + b) p)
        (omega arith, omega arith)
]
