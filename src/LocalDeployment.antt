-- ===== src/LocalDeployment.antt =====
-- scripts/local-deployment/localDeploymentLib.ts: the token bridge of the local test environment.
-- `parent` is the chain that the script calls L1 or parent. What `docker exec` prints is an argument.
use arb_bridge_peripherals.Base.{
  ℕ, ◌*◌, true, false, not, Option, none, some, [], ◌∷◌, ◌===◌, Text, codes, pure, ask, when, ◌>>=◌,
  ◌>>◌, if◌then◌else◌,
}
use arb_bridge_peripherals.Chain.NetworkTypes.{L1Network, L2Network}
use arb_bridge_peripherals.Chain.Types.{parent, child, Getter, Contract, local_networks}
use arb_bridge_peripherals.Chain.{Network, Run, read, deploy, add_custom_network, save_networks}
use arb_bridge_peripherals.Chain.FeeToken.{address_zero}
use arb_bridge_peripherals.Networks.{no_token_bridge}
use arb_bridge_peripherals.TokenBridge.Gas.{get_estimate_for_deploying_factory}
use arb_bridge_peripherals.TokenBridge.Create.{Deployment, create_token_bridge}
use arb_bridge_peripherals.TokenBridge.Creator.{deploy_l1_token_bridge_creator}
use arb_bridge_peripherals.TokenBridge.Register.{register_gateways}
use arb_bridge_peripherals.TokenBridge.Target.{token_bridge_of}
use arb_bridge_peripherals.Usdc.Env.{Env, is_missing, value_of}
pub mod Links
pub mod Effects
pub mod Saved
mod Tests

-- The `deployment.json` of a container.
pub record RollupData : Type 0 where
  pub bridge : Text
  pub inbox : Text
  pub sequencer_inbox : Text
  pub rollup : Text

-- The containers' files, each `none` where it cannot be read, and the key that `sha256` gives for the
-- name of the default deployer.
pub record Containers : Type 0 where
  pub sequencer : Option RollupData
  pub l3node : Option RollupData
  pub default_key : Text

-- The key of the deployer on the parent chain: the defaults are taken unless both keys are set.
unfoldable pub parent_key : Containers → Env → Text
parent_key containers env = elim (env "PARENT_KEY") [
  | none ↦ containers.default_key
  | some key ↦ elim (env "CHILD_KEY") [ none ↦ containers.default_key | some _ ↦ key ]
]

unfoldable pub child_key : Containers → Env → Text
child_key containers env = elim (env "PARENT_KEY") [
  | none ↦ containers.default_key
  | some _ ↦ elim (env "CHILD_KEY") [ none ↦ containers.default_key | some key ↦ key ]
]

-- `LOCALHOST_L3_OWNER_KEY`
unfoldable pub localhost_l3_owner_key : Text
localhost_l3_owner_key = codes "0xecdf21cb41c65afb51f91df408b7656e2c8739a5877f2814add0afd780cc210e"

unfoldable pub local_owner_key : Env → Text
local_owner_key env = elim (env "ROLLUP_OWNER_KEY") [
  | none ↦ localhost_l3_owner_key
  | some key ↦ key
]

-- The parent chain as a chain of its own.
unfoldable pub arb_local : ℕ → RollupData → L2Network
arb_local l2_id info = record {
  block_time = some 25;
  partner_chain_ids = some (l2_id ∷ []);
  chain_id = 412346;
  confirm_period_blocks = 20;
  eth_bridge = record {
    bridge = info.bridge;
    inbox = info.inbox;
    outbox = [];
    rollup = info.rollup;
    sequencer_inbox = info.sequencer_inbox;
  };
  explorer_url = [];
  is_arbitrum = true;
  is_custom = true;
  name = codes "ArbLocal";
  partner_chain_id = 1337;
  retryable_lifetime_seconds = 7 * 24 * 60 * 60;
  nitro_genesis_block = 0;
  nitro_genesis_l1_block = 0;
  deposit_timeout = 900000;
  token_bridge = no_token_bridge;
}

unfoldable pub orbit_local : ℕ → ℕ → RollupData → Text → L2Network
orbit_local l1_id l2_id info outbox = record {
  block_time = some 25;
  partner_chain_ids = some [];
  chain_id = l2_id;
  confirm_period_blocks = 20;
  eth_bridge = record {
    bridge = info.bridge;
    inbox = info.inbox;
    outbox = outbox;
    rollup = info.rollup;
    sequencer_inbox = info.sequencer_inbox;
  };
  explorer_url = [];
  is_arbitrum = true;
  is_custom = true;
  name = codes "OrbitLocal";
  partner_chain_id = l1_id;
  retryable_lifetime_seconds = 7 * 24 * 60 * 60;
  nitro_genesis_block = 0;
  nitro_genesis_l1_block = 0;
  deposit_timeout = 900000;
  token_bridge = no_token_bridge;
}

unfoldable pub eth_local : L2Network → L1Network
eth_local l1 = record {
  block_time = 1000;
  chain_id = l1.partner_chain_id;
  explorer_url = [];
  is_custom = true;
  name = codes "EthLocal";
  partner_chain_ids = l1.chain_id ∷ [];
  is_arbitrum = false;
}

-- What `setupTokenBridgeInLocalEnv` returns.
pub record LocalSetup : Type 0 where
  pub l1_network : L2Network
  pub l2_network : L2Network
  pub l1_token_bridge_creator : Text
  pub retryable_sender : Text

module _ (N : Network) (containers : Containers) where
  -- The rollup's contracts, from the container, or through the rollup if its address is given.
  unfoldable pub rollup_data : Text → Run N RollupData
  rollup_data [] = ask (λ _. containers.l3node)
  rollup_data (c ∷ cs) = do
    bridge ← read N parent (c ∷ cs) Getter.bridge
    inbox ← read N parent (c ∷ cs) Getter.inbox
    sequencer_inbox ← read N parent (c ∷ cs) Getter.sequencer_inbox
    pure (record {
      bridge = bridge;
      inbox = inbox;
      sequencer_inbox = sequencer_inbox;
      rollup = c ∷ cs;
    })

  -- `rollup_address` is empty where it is unset.
  unfoldable pub get_local_networks : Text → Run N (L2Network × L2Network)
  get_local_networks rollup_address = do
    l1_id ← ask (λ w. N.chain_id parent w.chain)
    l2_id ← ask (λ w. N.chain_id child w.chain)
    l2_data ← ask (λ _. containers.sequencer)
    info ← rollup_data rollup_address
    outbox ← read N parent info.bridge Getter.first_allowed_outbox
    pure (arb_local l2_id l2_data, orbit_local l1_id l2_id info outbox)

  -- A WETH contract of the environment, or a new one.
  unfoldable pub parent_weth : Env → Text → Run N Text
  parent_weth env deployer =
      if is_missing env "PARENT_WETH_OVERRIDE"
      then deploy N parent deployer (Contract.test_weth9 (codes "WETH") (codes "WETH"))
      else pure (value_of env "PARENT_WETH_OVERRIDE")

  -- The WETH gateway is registered if there is one.
  unfoldable pub register_weth : Text → Text → Text → Deployment → Run N (Unit {0})
  register_weth owner rollup l1_weth d =
      when (not (d.l1_deployment.weth_gateway === address_zero)) (do
        executor ← read N parent rollup Getter.owner
        register_gateways N owner executor d.l1_deployment.router (l1_weth ∷ [])
            (d.l1_deployment.weth_gateway ∷ []))

  unfoldable pub setup_token_bridge_in_local_env : Env → Run N LocalSetup
  setup_token_bridge_in_local_env env = do
    owner ← ask (λ _. N.wallet_address (local_owner_key env))
    deployer ← ask (λ _. N.wallet_address (parent_key containers env))
    _ ← ask (λ _. N.wallet_address (child_key containers env))
    networks ← get_local_networks (value_of env "ROLLUP_ADDRESS")
    add_custom_network N (some (eth_local networks.0)) networks.0
    add_custom_network N none networks.1
    l1_weth ← parent_weth env deployer
    params ← get_estimate_for_deploying_factory N deployer
    creator ← deploy_l1_token_bridge_creator N deployer l1_weth params.gas_limit false
    let rollup = networks.1.eth_bridge.rollup
    d ← create_token_bridge N deployer creator.0 rollup owner
    register_weth owner rollup l1_weth d
    pure (record {
      l1_network = networks.0;
      l2_network = record networks.1 { token_bridge = token_bridge_of d };
      l1_token_bridge_creator = creator.0;
      retryable_sender = creator.1;
    })

  -- `main` of deployCreatorAndCreateTokenBridge.ts
  unfoldable pub save_local_setup : Env → Run N (Unit {0})
  save_local_setup env = do
    s ← setup_token_bridge_in_local_env env
    save_networks N
        (local_networks s.l1_network s.l2_network s.l1_token_bridge_creator s.retryable_sender)
