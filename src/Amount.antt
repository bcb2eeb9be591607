-- ===== src/Amount.antt =====
-- Fees in the decimals of a chain's fee token: `_getScaledAmount` of
-- scripts/local-deployment/localDeploymentLib.ts and `_getPrescaledAmount` of
-- scripts/usdc-bridge-deployment/deployUsdcBridge.ts. A `BigNumber` is a natural number here: no
-- subtraction of these scripts goes below zero.
pub mod Scaling
mod Tests
use arb_bridge_peripherals.Base.{
  ℕ, ◌+◌, ◌-◌, ◌*◌, ◌/◌, ◌^◌, Option, ltb, ◌==◌, if◌then◌else◌, Text, Script, ask, pure, ◌>>=◌,
}

-- From 18 decimals to those of the fee token, rounded up.
unfoldable pub scaled_amount : ℕ → ℕ → ℕ
scaled_amount decimals amount =
    if decimals == 18
    then amount
    else if ltb decimals 18
    then (let scaled = amount / 10 ^ (18 - decimals) in
        if ltb (scaled * 10 ^ (18 - decimals)) amount then scaled + 1 else scaled)
    else amount * 10 ^ (decimals - 18)

-- That of the other script, with its tests in another order.
unfoldable pub prescaled_amount : ℕ → ℕ → ℕ
prescaled_amount decimals amount =
    if ltb decimals 18
    then (let scaling_factor = 10 ^ (18 - decimals) in
        let prescaled = amount / scaling_factor in
        if ltb (prescaled * scaling_factor) amount then prescaled + 1 else prescaled)
    else if ltb 18 decimals
    then amount * 10 ^ (decimals - 18)
    else amount

-- `decimals()` of the token, which may fail, is the argument `decimals_of`.
module _ {S : Type 0} (decimals_of : Text → S → Option ℕ) where
  unfoldable pub get_scaled_amount : Text → ℕ → Script S ℕ
  get_scaled_amount fee_token amount = do
    decimals ← ask (decimals_of fee_token)
    pure (scaled_amount decimals amount)

  unfoldable pub get_prescaled_amount : Text → ℕ → Script S ℕ
  get_prescaled_amount native_token amount = do
    decimals ← ask (decimals_of native_token)
    pure (prescaled_amount decimals amount)
