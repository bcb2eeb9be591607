-- ===== src/Chain/NetworkTypes.antt =====
-- The network descriptions that the scripts hand to the SDK and write to `network.json`: the types
-- `L1Network` and `L2Network` of the SDK, with the fields that the scripts set.
use arb_bridge_peripherals.Base.{ℕ, Bool, Option, List, Text}

pub record TokenBridge : Type 0 where
  pub l1_custom_gateway : Text
  pub l1_erc20_gateway : Text
  pub l1_gateway_router : Text
  pub l1_multi_call : Text
  pub l1_proxy_admin : Text
  pub l1_weth : Text
  pub l1_weth_gateway : Text
  pub l2_custom_gateway : Text
  pub l2_erc20_gateway : Text
  pub l2_gateway_router : Text
  pub l2_multicall : Text
  pub l2_proxy_admin : Text
  pub l2_weth : Text
  pub l2_weth_gateway : Text

pub record EthBridge : Type 0 where
  pub bridge : Text
  pub inbox : Text
  pub outbox : Text
  pub rollup : Text
  pub sequencer_inbox : Text

pub record L1Network : Type 0 where
  -- in hundredths of a second
  pub block_time : ℕ
  pub chain_id : ℕ
  pub explorer_url : Text
  pub is_custom : Bool
  pub name : Text
  pub partner_chain_ids : List ℕ
  pub is_arbitrum : Bool

pub record L2Network : Type 0 where
  pub block_time : Option ℕ
  pub partner_chain_ids : Option (List ℕ)
  pub chain_id : ℕ
  pub confirm_period_blocks : ℕ
  pub eth_bridge : EthBridge
  pub explorer_url : Text
  pub is_arbitrum : Bool
  pub is_custom : Bool
  pub name : Text
  pub partner_chain_id : ℕ
  pub retryable_lifetime_seconds : ℕ
  pub nitro_genesis_block : ℕ
  pub nitro_genesis_l1_block : ℕ
  pub deposit_timeout : ℕ
  pub token_bridge : TokenBridge

-- The contracts that the creator has registered for an inbox, on the parent and on the child chain.
pub record L1Deployment : Type 0 where
  pub router : Text
  pub standard_gateway : Text
  pub custom_gateway : Text
  pub weth_gateway : Text
  pub weth : Text

pub record L2Deployment : Type 0 where
  pub router : Text
  pub standard_gateway : Text
  pub custom_gateway : Text
  pub weth_gateway : Text
  pub weth : Text
  pub proxy_admin : Text
  pub beacon_proxy_factory : Text
  pub upgrade_executor : Text
  pub multicall : Text
