-- ===== src/Amount/Tests.antt =====
-- Fees of tokens with 6, 18 and 20 decimals.
use arb_bridge_peripherals.Base.{ℕ, ◌+◌, ◌*◌, ◌^◌, ◌≤◌, ◌≡◌, refl}
use arb_bridge_peripherals.Amount.{scaled_amount, prescaled_amount}
use arb_bridge_peripherals.Amount.Scaling.{
  prescaled_amount-scaled_amount, scaled_amount-IsLeast, scaled_amount-add,
}

six_decimals : scaled_amount 6 1000000000001 ≡ 2
unfolding scaled_amount
six_decimals = refl

twenty_decimals : scaled_amount 20 7 ≡ 700
unfolding scaled_amount
twenty_decimals = refl

prescaled_amount-scaled_amount_example :
    prescaled_amount 6 1500000000000 ≡ scaled_amount 6 1500000000000
prescaled_amount-scaled_amount_example = prescaled_amount-scaled_amount 6 1500000000000

scaled_amount-IsLeast_example :
    (1500000000000 * 10 ^ 6 ≤ scaled_amount 6 1500000000000 * 10 ^ 18)
    × ((t : ℕ) → 1500000000000 * 10 ^ 6 ≤ t * 10 ^ 18 → scaled_amount 6 1500000000000 ≤ t)
scaled_amount-IsLeast_example = scaled_amount-IsLeast 6 1500000000000

scaled_amount-add_example :
    (scaled_amount 6 (1 + 2) ≤ scaled_amount 6 1 + scaled_amount 6 2)
    × (scaled_amount 6 1 + scaled_amount 6 2 ≤ scaled_amount 6 (1 + 2) + 1)
scaled_amount-add_example = scaled_amount-add 6 1 2
