-- ===== src/OrbitTokenBridge/Suite.antt =====
-- The tests in their order. Mocha reports a test that fails and goes on with the next one; a call of
-- `exit` ends the process. The test of withdrawals is disabled.
use arb_bridge_peripherals.Base.{Bool, true, false, none, some, Text, pure, catch, ◌>>=◌, ◌>>◌}
use arb_bridge_peripherals.Chain.{Network, Run}
use arb_bridge_peripherals.LocalDeployment.{Containers}
use arb_bridge_peripherals.OrbitTokenBridge.{Setup, Keys, ether, before, deployed_test}
use arb_bridge_peripherals.OrbitTokenBridge.Deposit.{default_gateway_test}
use arb_bridge_peripherals.OrbitTokenBridge.Custom.{custom_gateway_test}
use arb_bridge_peripherals.OrbitTokenBridge.Usdc.{deploy_usdc}
use arb_bridge_peripherals.OrbitTokenBridge.Usdc.Registration.{
  token_fee, register_usdc_gateway, check_usdc_registration, mint_usdc, deposit_usdc,
}
use arb_bridge_peripherals.OrbitTokenBridge.Usdc.Handover.{hand_over}
use arb_bridge_peripherals.Usdc.Env.{Env}

module _ (N : Network) (bytecode : Text) where
  unfoldable pub upgrade_usdc : Setup → Run N (Unit {0})
  unfolding deploy_usdc token_fee register_usdc_gateway check_usdc_registration mint_usdc
      deposit_usdc hand_over
  upgrade_usdc s = do
    c ← deploy_usdc N bytecode s
    fee ← token_fee N s.native_token
    register_usdc_gateway N s c fee
    check_usdc_registration N s c
    mint_usdc N s c
    deposit_usdc N s c fee (ether 2)
    hand_over N s c (ether 2)

  -- Each of the two tests is only for one kind of chain, and does nothing on the other.
  unfoldable pub usdc_test_eth : Setup → Run N (Unit {0})
  unfolding upgrade_usdc
  usdc_test_eth s = elim s.native_token [ none ↦ upgrade_usdc s | some native ↦ pure tt ]

  unfoldable pub usdc_test_fee_token : Setup → Run N (Unit {0})
  unfolding upgrade_usdc
  usdc_test_fee_token s = elim s.native_token [ none ↦ pure tt | some native ↦ upgrade_usdc s ]

  -- Whether a test passes.
  unfoldable pub passes : Run N (Unit {0}) → Run N Bool
  passes test = catch (test >> pure true) (pure false)

  -- The results of the five tests.
  pub record Results : Type 0 where
    pub deployed : Bool
    pub default_gateway : Bool
    pub custom_gateway : Bool
    pub usdc_eth : Bool
    pub usdc_fee_token : Bool

  unfoldable pub orbit_token_bridge : Containers → Env → Keys → Run N Results
  unfolding passes default_gateway_test custom_gateway_test usdc_test_eth usdc_test_fee_token
  orbit_token_bridge containers env keys = do
    s ← before N containers env keys
    deployed ← passes (deployed_test N s)
    default_gateway ← passes (default_gateway_test N s)
    custom_gateway ← passes (custom_gateway_test N s)
    usdc_eth ← passes (usdc_test_eth s)
    usdc_fee_token ← passes (usdc_test_fee_token s)
    pure (record {
      deployed = deployed;
      default_gateway = default_gateway;
      custom_gateway = custom_gateway;
      usdc_eth = usdc_eth;
      usdc_fee_token = usdc_fee_token;
    })
