-- ===== src/LocalDeployment/Tests.antt =====
-- A local network whose parent chain has the number of the test environment.
use arb_bridge_peripherals.Base.{refl, some, none, codes, [], ℕ, Option, Triple}
use arb_bridge_peripherals.Chain.{Network, World}
use arb_bridge_peripherals.Chain.NetworkTypes.{L1Deployment, L2Deployment}
use arb_bridge_peripherals.Chain.Types.{parent, child}
use arb_bridge_peripherals.Chain.Small.{small_chain}
use arb_bridge_peripherals.LocalDeployment.{Containers, RollupData, save_local_setup}
use arb_bridge_peripherals.Usdc.Env.{Env}
use arb_bridge_peripherals.LocalDeployment.Saved.{Saved, Unsaved, save_local_setup-Saved}

-- What the creator reports: its WETH gateways are there, so they are registered too.
abbrev l1 : L1Deployment
l1 = record {
  router = codes "0x20";
  standard_gateway = codes "0x21";
  custom_gateway = codes "0x23";
  weth_gateway = codes "0x24";
  weth = codes "0x25";
}

abbrev l2 : L2Deployment
l2 = record {
  router = codes "0x22";
  standard_gateway = codes "0x31";
  custom_gateway = codes "0x33";
  weth_gateway = codes "0x34";
  weth = codes "0x35";
  proxy_admin = codes "0x36";
  beacon_proxy_factory = codes "0x37";
  upgrade_executor = codes "0x38";
  multicall = codes "0x39";
}

abbrev local_chain : Network
local_chain = record (small_chain none) {
  inbox_to_l1_deployment = λ c i s. some l1;
  inbox_to_l2_deployment = λ c i s. some l2;
  chain_id = λ l s. elim l as (λ _. Option ℕ) [ parent ↦ some 412346 | child ↦ some 333333 ];
}

abbrev first : World local_chain
first = record { chain = 0; draws = 0; log = [] }

abbrev info : RollupData
info = record {
  bridge = codes "0x0b";
  inbox = codes "0x0c";
  sequencer_inbox = codes "0x0d";
  rollup = codes "0x0e";
}

abbrev containers : Containers
containers = record { sequencer = some info; l3node = some info; default_key = codes "0x01" }

abbrev env : Env
env name = none

save_local_setup-Saved_example :
    Triple
      (λ _ t. Saved local_chain containers 333333 first t)
      (Unsaved local_chain containers 333333 first)
      (save_local_setup local_chain containers env)
      first
save_local_setup-Saved_example =
    save_local_setup-Saved local_chain containers 333333 first env refl refl
