-- ===== src/Chain/Types.antt =====
-- Requests to the two chains and their answers, as data.
use arb_bridge_peripherals.Base.{ℕ, Option, List, Text, String}
use arb_bridge_peripherals.Chain.NetworkTypes.{L1Network, L2Network}

-- `parent` is L1 in the scripts' names, and `child` is L2.
pub data Layer : Type 0 where
  parent child : Layer

-- View functions that return an address or a string.
pub data Getter : Type 0 where
  bridge native_token rollup inbox outbox sequencer_inbox : Getter
  owner admin_role executor_role : Getter
  name symbol currency master_minter pauser blacklister : Getter
  router l1_usdc l2_usdc counterpart_gateway : Getter
  l2_token_bridge_factory_template l1_multicall proxy_admin : Getter
  -- the provider's `getCode`
  code : Getter
  -- the bridge's `allowedOutboxList(0)`
  first_allowed_outbox : Getter
  default_gateway whitelist l2_beacon_proxy_factory beacon_proxy_factory cloneable_proxy_hash :
      Getter
  canonical_l2_factory_address beacon implementation l1_weth l2_weth retryable_sender l2_gateway :
      Getter
  -- the creator's templates of the child chain's contracts
  l2_router_template l2_standard_gateway_template l2_custom_gateway_template : Getter
  l2_weth_gateway_template l2_multicall_template : Getter
  -- a router's gateway of a token, as it is set, and as it is used
  l1_token_to_gateway get_gateway : Text → Getter
  -- a router's `calculateL2TokenAddress` of a token
  calculate_l2_token_address : Text → Getter
  -- the gateway's `getOutboundCalldata`: token, sender, receiver, amount, with no hook data
  outbound_calldata : Text → Text → Text → ℕ → Getter
  admin burner usdc_ownership_transferrer : Getter
  -- the provider's `getStorageAt`, by the slot; the empty text where there is none
  storage_at : Text → Getter

-- View functions that return a number.
pub data NumberGetter : Type 0 where
  decimals confirm_period_blocks gas_limit_for_l2_factory_deployment : NumberGetter
  -- the provider's `getBalance`, and a token's `balanceOf` of an account
  balance : NumberGetter
  balance_of : Text → NumberGetter
  total_supply burn_amount : NumberGetter

-- View functions that return a Boolean.
pub data Flag : Type 0 where
  deposits_paused withdrawals_paused : Flag
  is_minter : Text → Flag

-- What is deployed: a contract's factory with its constructor's arguments.
pub data Contract : Type 0 where
  proxy_admin : Contract
  transparent_upgradeable_proxy : Text → Text → Text → Contract
  signature_checker : Contract
  -- Circle's token, by its linked bytecode
  fiat_token : Text → Contract
  fiat_token_proxy master_minter : Text → Contract
  l1_usdc_gateway l1_orbit_usdc_gateway l2_usdc_gateway : Contract
  l1_atomic_token_bridge_creator l1_token_bridge_retryable_sender : Contract
  l1_gateway_router l1_erc20_gateway l1_custom_gateway l1_weth_gateway : Contract
  l1_orbit_gateway_router l1_orbit_erc20_gateway l1_orbit_custom_gateway : Contract
  upgrade_executor : Contract
  l2_atomic_token_bridge_factory l2_gateway_router l2_erc20_gateway : Contract
  l2_custom_gateway l2_weth_gateway ae_weth multicall2 arb_multicall2 : Contract
  test_weth9 : Text → Text → Contract
  test_erc20 : Contract
  -- by the custom gateway and the router
  test_custom_token_l1 test_orbit_custom_token_l1 : Text → Text → Contract
  -- by the custom gateway and the token on the parent chain
  test_arb_custom_token : Text → Text → Contract

-- The templates of `setTemplates`, in the order of its arguments.
pub record L1Templates : Type 0 where
  pub router_template : Text
  pub standard_gateway_template : Text
  pub custom_gateway_template : Text
  pub weth_gateway_template : Text
  pub fee_token_based_router_template : Text
  pub fee_token_based_standard_gateway_template : Text
  pub fee_token_based_custom_gateway_template : Text
  pub upgrade_executor : Text

pub record L2Templates : Type 0 where
  pub l2_token_bridge_factory : Text
  pub l2_gateway_router : Text
  pub l2_standard_gateway : Text
  pub l2_custom_gateway : Text
  pub l2_weth_gateway : Text
  pub l2_weth : Text
  pub l2_multicall : Text

pub data Calldata : Type 0 where
  -- `initialize` of a contract whose arguments are addresses or bytes
  initialize : List Text → Calldata
  -- `initialize` of Circle's token: texts, decimals, and the four roles
  initialize_fiat_token : Text → Text → Text → ℕ → Text → Text → Text → Text → Calldata
  initialize_v2 initialize_v2_1 : Text → Calldata
  initialize_v2_2 : List Text → Text → Calldata
  change_admin : Text → Calldata
  configure_controller : Text → Text → Calldata
  configure_minter : ℕ → Calldata
  transfer approve : Text → ℕ → Calldata
  set_gateway : List Text → List Text → Calldata
  -- `setGateways`: tokens, gateways, max gas, gas price bid, max submission cost
  set_gateways : List Text → List Text → ℕ → ℕ → ℕ → Calldata
  -- the overload of the router for fee tokens, with the fee in that token
  set_gateways_with_fee : List Text → List Text → ℕ → ℕ → ℕ → ℕ → Calldata
  execute_call : Text → Calldata → Calldata
  -- templates, the L1 WETH, the L1 multicall, and the gas limit
  set_templates : L1Templates → L2Templates → Text → Text → ℕ → Calldata
  -- inbox, rollup owner, max gas, gas price
  create_token_bridge : Text → Text → ℕ → ℕ → Calldata
  -- `deployL2Contracts` of the factory's template, with the eight addresses that follow the code
  deploy_l2_contracts : List Text → Calldata
  -- a transaction that only transfers its value
  no_calldata : Calldata
  -- calldata that a contract has returned
  encoded : Text → Calldata
  -- `mint` of the test tokens, and of Circle's token
  mint : Calldata
  mint_to : Text → ℕ → Calldata
  deposit_erc20 : ℕ → Calldata
  register_token_from_l1 : List Text → List Text → Calldata
  -- the token on the child chain; submission costs and gas limits for the gateway and for the router,
  -- in pairs; the gas price; the values for both; the account that is credited
  register_token_on_l2 : Text → ℕ → ℕ → ℕ → ℕ → ℕ → ℕ → ℕ → Text → Calldata
  -- token, refund address, receiver, amount, max gas, gas price, submission cost, and the fee in the
  -- chain's token if it has one; there is no hook data
  outbound_transfer_custom_refund : Text → Text → Text → ℕ → ℕ → ℕ → ℕ → Option ℕ → Calldata
  -- of Circle's token
  configure_minter_allowance : Text → ℕ → Calldata
  remove_minter transfer_ownership : Text → Calldata
  -- of the USDC gateways
  pause_deposits pause_withdrawals burn_locked_usdc : Calldata
  set_burn_amount : ℕ → Calldata
  set_burner set_usdc_ownership_transferrer transfer_usdc_roles : Text → Calldata
  -- of a proxy admin: the proxy and its next admin
  change_proxy_admin : Text → Text → Calldata
  -- bytecode of a contract that a retryable ticket creates
  creation_code : Contract → Calldata

pub record Tx : Type 0 where
  pub to : Text
  pub value : ℕ
  pub calldata : Calldata

-- The argument of `estimateAll`.
pub record Retryable : Type 0 where
  pub from : Text
  pub to : Text
  pub l2_call_value : ℕ
  pub excess_fee_refund_address : Text
  pub call_value_refund_address : Text
  pub calldata : Calldata

pub record GasParams : Type 0 where
  pub gas_limit : ℕ
  pub max_fee_per_gas : ℕ
  pub max_submission_cost : ℕ
  -- what the ticket costs in all
  pub deposit : ℕ

-- `L1ToL2MessageStatus` of the SDK
pub data Status : Type 0 where
  not_yet_created creation_failed funds_deposited_on_l2 redeemed expired : Status

-- The file network.json, as the script for a target chain and as the local one writes it.
pub data NetworkFile : Type 0 where
  target_networks : L1Network → L2Network → NetworkFile
  -- the last two are the creator's address and the retryable sender's
  local_networks : L2Network → L2Network → Text → Text → NetworkFile

-- What a run has done so far, oldest first.
pub data Event : Type 0 where
  deployed : Layer → Contract → Text → Event
  sent : Layer → Text → Tx → Event
  wrote : List Tx → Event
  -- a contract submitted for verification: its name, its address, its constructor's arguments
  submitted : String → Text → List Text → Event
  -- `addCustomNetwork` of the SDK
  registered : Option L1Network → L2Network → Event
  saved : NetworkFile → Event
