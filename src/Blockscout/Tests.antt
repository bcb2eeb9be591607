-- ===== src/Blockscout/Tests.antt =====
-- A run with a key, one explorer that accepts every contract and one that accepts none; and a run
-- without a key.
use arb_bridge_peripherals.Base.{
  ◌≡◌, refl, none, some, [], codes, err, Stop, effects, length, ◌===◌, true, false,
}
use arb_bridge_peripherals.Chain.{Network, World, submit, deploy}
use arb_bridge_peripherals.Chain.NetworkTypes.{L2Deployment}
use arb_bridge_peripherals.Chain.Small.{small_chain}
use arb_bridge_peripherals.Usdc.Env.{Env}
use arb_bridge_peripherals.Blockscout.{Explorer, verify_on_blockscout}
use arb_bridge_peripherals.Blockscout.Outcomes.{
  verify_on_blockscout-any, verify_on_blockscout-without_key,
}

abbrev l2 : L2Deployment
l2 = record {
  router = codes "0x01";
  standard_gateway = codes "0x02";
  custom_gateway = codes "0x03";
  weth_gateway = codes "0x04";
  weth = codes "0x05";
  proxy_admin = codes "0xad";
  beacon_proxy_factory = codes "0x0b";
  upgrade_executor = codes "0xee";
  multicall = codes "0x0c";
}

abbrev chain_with_bridge : Network
chain_with_bridge = record (small_chain none) { inbox_to_l2_deployment = λ c i s. some l2 }

abbrev before : World chain_with_bridge
before = record { chain = 0; draws = 0; log = [] }

abbrev all_set : Env
all_set name = some (codes "0x77")

abbrev no_key : Env
no_key name = elim (codes name === codes "DEPLOYER_KEY") [
  | true ↦ none
  | false ↦ some (codes "0x77")
]

abbrev accepts : Explorer
accepts address args = none

abbrev refuses : Explorer
refuses address args = some (codes "rate limit")

-- Thirteen submissions and two deployments
fifteen_steps : length (verify_on_blockscout chain_with_bridge refuses all_set before).1.log ≡ 15
unfolding verify_on_blockscout submit deploy effects ◌===◌
fifteen_steps = refl

verify_on_blockscout-any_example :
    verify_on_blockscout chain_with_bridge accepts all_set before
    ≡ verify_on_blockscout chain_with_bridge refuses all_set before
verify_on_blockscout-any_example =
    verify_on_blockscout-any chain_with_bridge accepts refuses all_set before

no_deployer_key : no_key "DEPLOYER_KEY" ≡ none
unfolding ◌===◌
no_deployer_key = refl

verify_on_blockscout-without_key_example :
    (e : Stop) × (verify_on_blockscout chain_with_bridge accepts no_key before ≡ (err e, before))
verify_on_blockscout-without_key_example =
    verify_on_blockscout-without_key chain_with_bridge accepts no_key before no_deployer_key
