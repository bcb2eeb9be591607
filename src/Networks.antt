-- ===== src/Networks.antt =====
-- The description of the two chains for the SDK: `registerNetworks` of
-- scripts/deployment/createTokenBridge.ts and scripts/deployment/deployTokenBridgeCreator.ts, and
-- `_registerNetworks` of scripts/usdc-bridge-deployment/deployUsdcBridge.ts.
use arb_bridge_peripherals.Base.{
  ℕ, ◌*◌, true, false, none, some, Option, List, [], ◌∷◌, Text, codes, ask, pure, ◌>>=◌, ◌>>◌,
}
use arb_bridge_peripherals.Chain.NetworkTypes.{TokenBridge, EthBridge, L1Network, L2Network}
use arb_bridge_peripherals.Chain.Types.{parent, child, Getter, NumberGetter}
use arb_bridge_peripherals.Chain.{Network, Run, read, read_number, add_custom_network}

abbrev pub no_token_bridge : TokenBridge
no_token_bridge = record {
  l1_custom_gateway = [];
  l1_erc20_gateway = [];
  l1_gateway_router = [];
  l1_multi_call = [];
  l1_proxy_admin = [];
  l1_weth = [];
  l1_weth_gateway = [];
  l2_custom_gateway = [];
  l2_erc20_gateway = [];
  l2_gateway_router = [];
  l2_multicall = [];
  l2_proxy_admin = [];
  l2_weth = [];
  l2_weth_gateway = [];
}

abbrev pub NetworkPair : Type 0
NetworkPair = L1Network × L2Network

module _ (N : Network) where
  unfoldable pub l1_network_of : Run N L1Network
  l1_network_of = do
    l1_id ← ask (λ w. N.chain_id parent w.chain)
    l1_name ← ask (λ w. N.chain_name parent w.chain)
    l2_id ← ask (λ w. N.chain_id child w.chain)
    pure (record {
      block_time = 1000;
      chain_id = l1_id;
      explorer_url = [];
      is_custom = true;
      name = l1_name;
      partner_chain_ids = l2_id ∷ [];
      is_arbitrum = false;
    })

  -- The contracts of a rollup, read in the order of the source.
  unfoldable pub eth_bridge_of : Text → Run N EthBridge
  eth_bridge_of rollup = do
    bridge ← read N parent rollup Getter.bridge
    inbox ← read N parent rollup Getter.inbox
    outbox ← read N parent rollup Getter.outbox
    sequencer_inbox ← read N parent rollup Getter.sequencer_inbox
    pure (record {
      bridge = bridge;
      inbox = inbox;
      outbox = outbox;
      rollup = rollup;
      sequencer_inbox = sequencer_inbox;
    })

  unfoldable pub l2_network_of : Option ℕ → Option (List ℕ) → L1Network → Text → Run N L2Network
  l2_network_of block_time partners l1_network rollup = do
    l2_id ← ask (λ w. N.chain_id child w.chain)
    period ← read_number N parent rollup NumberGetter.confirm_period_blocks
    eth_bridge ← eth_bridge_of rollup
    pure (record {
      block_time = block_time;
      partner_chain_ids = partners;
      chain_id = l2_id;
      confirm_period_blocks = period;
      eth_bridge = eth_bridge;
      explorer_url = [];
      is_arbitrum = true;
      is_custom = true;
      name = codes "OrbitChain";
      partner_chain_id = l1_network.chain_id;
      retryable_lifetime_seconds = 7 * 24 * 60 * 60;
      nitro_genesis_block = 0;
      nitro_genesis_l1_block = 0;
      deposit_timeout = 900000;
      token_bridge = no_token_bridge;
    })

  unfoldable pub register_networks : Text → Run N NetworkPair
  register_networks rollup = do
    l1_network ← l1_network_of
    l2_network ← l2_network_of none none l1_network rollup
    add_custom_network N (some l1_network) l2_network
    pure (l1_network, l2_network)

  -- `_registerNetworks`, which finds the rollup through the inbox
  unfoldable pub register_networks_by_inbox : Text → Run N NetworkPair
  register_networks_by_inbox inbox = do
    l1_network ← l1_network_of
    bridge ← read N parent inbox Getter.bridge
    rollup ← read N parent bridge Getter.rollup
    l2_network ← l2_network_of (some 1000) (some []) l1_network rollup
    add_custom_network N (some l1_network) l2_network
    pure (l1_network, l2_network)
