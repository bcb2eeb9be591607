-- ===== src/Chain/FeeToken.antt =====
-- `_getFeeToken` of scripts/usdc-bridge-deployment/deployUsdcBridge.ts and of
-- scripts/atomicTokenBridgeDeployer.ts, which has the same body.
use arb_bridge_peripherals.Base.{
  ◌≡◌, none, some, Text, codes, Result, ok, err, failed, pure, catch, ◌>>=◌, arith, effects,
}
use arb_bridge_peripherals.Chain.Types.{parent, Getter}
use arb_bridge_peripherals.Chain.{Network, World, Run, read}

-- `ethers.constants.AddressZero`
unfoldable pub address_zero : Text
address_zero = codes "0x0000000000000000000000000000000000000000"

module _ (N : Network) where
  -- A bridge without `nativeToken()` belongs to a chain that pays its fees in ETH.
  unfoldable pub get_fee_token : Text → Run N Text
  get_fee_token inbox = do
    bridge ← read N parent inbox Getter.bridge
    catch (read N parent bridge Getter.native_token) (pure address_zero)

  -- The answer as a function of the parent chain's state.
  unfoldable pub fee_token_answer : Text → N.State → Result Text
  fee_token_answer inbox s = elim (N.read parent inbox Getter.bridge s) [
    | none ↦ err failed
    | some bridge ↦ elim (N.read parent bridge Getter.native_token s) [
      | none ↦ ok address_zero
      | some token ↦ ok token
    ]
  ]

  -- Nothing is changed by the search.
  pub get_fee_token-answer :
      (inbox : Text) (w : World N) → get_fee_token inbox w ≡ (fee_token_answer inbox w.chain, w)
  unfolding get_fee_token fee_token_answer effects
  get_fee_token-answer inbox w = ground arith
