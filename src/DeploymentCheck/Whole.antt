-- ===== src/DeploymentCheck/Whole.antt =====
-- The test as a whole.
use arb_bridge_peripherals.Base.{
  Bool, true, not, ◌||◌, Option, none, some, [], Text, ◌===◌, ◌==◌, same_address, pure, throw, ask,
  ◌>>=◌, ◌>>◌, when, if◌then◌else◌,
}
use arb_bridge_peripherals.Chain.{Network, Run, read}
use arb_bridge_peripherals.Chain.Types.{parent, child, Getter}
use arb_bridge_peripherals.Chain.NetworkTypes.{L1Deployment, L2Deployment}
use arb_bridge_peripherals.Chain.FeeToken.{address_zero}
use arb_bridge_peripherals.DeploymentCheck.{Addresses, expect, is_using_fee_token, get_addresses}
use arb_bridge_peripherals.DeploymentCheck.Parent.{
  check_l1_router_initialization, check_l1_standard_gateway_initialization,
  check_l1_custom_gateway_initialization, check_l1_weth_gateway_initialization,
  check_l1_upgrade_executor_initialization,
}
use arb_bridge_peripherals.DeploymentCheck.Child.{
  check_l2_router_initialization, check_l2_standard_gateway_initialization,
  check_l2_custom_gateway_initialization, check_l2_weth_gateway_initialization,
  check_l2_multicall_initialization, check_l2_upgrade_executor_initialization,
}
use arb_bridge_peripherals.DeploymentCheck.Ownership.{
  check_l1_ownership, check_l2_ownership, check_logic_contracts, check_weth_gateway_is_registered,
}

pub record EntryAddresses : Type 0 where
  pub rollup : Text
  pub l1_token_bridge_creator : Text
  -- undefined where the variable is not set
  pub l1_retryable_sender : Option Text

pub record TestVars : Type 0 where
  pub rollup_address : Option Text
  pub l1_token_bridge_creator : Option Text
  pub l1_retryable_sender : Option Text
  -- what `network.json` holds, if it is there
  pub network_file : Option EntryAddresses

module _ (N : Network) where
  unfoldable pub entry_from_file : Option EntryAddresses → Run N EntryAddresses
  entry_from_file none = throw "Can't find rollup address info."
  entry_from_file (some e) = pure e

  -- The variables count if both are set and neither is empty.
  unfoldable pub entry_addresses : TestVars → Run N EntryAddresses
  unfolding entry_from_file
  entry_addresses v = elim v.rollup_address [
    | none ↦ entry_from_file v.network_file
    | some rollup ↦ elim v.l1_token_bridge_creator [
      | none ↦ entry_from_file v.network_file
      | some creator ↦
          if rollup === [] || creator === []
          then entry_from_file v.network_file
          else pure (record {
            rollup = rollup;
            l1_token_bridge_creator = creator;
            l1_retryable_sender = v.l1_retryable_sender;
          })
    ]
  ]

  unfoldable pub is_local_deployment : Run N Bool
  is_local_deployment = do
    l1 ← ask (λ w. N.chain_id parent w.chain)
    if l1 == 412346
        then pure true
        else (do l2 ← ask (λ w. N.chain_id child w.chain); pure (l2 == 333333))

  unfoldable pub check_no_weth : L1Deployment → L2Deployment → Run N (Unit {0})
  unfolding expect
  check_no_weth l1 l2 = do
    expect N (l1.weth_gateway === address_zero)
    expect N (l1.weth === address_zero)
    expect N (l2.weth_gateway === address_zero)
    expect N (l2.weth === address_zero)

  -- The contracts of the two chains, with those for WETH where the chain pays its fees in ETH.
  unfoldable pub check_contracts : Addresses → Run N Bool
  unfolding is_using_fee_token check_no_weth check_l1_router_initialization
      check_l1_standard_gateway_initialization check_l1_custom_gateway_initialization
      check_l1_weth_gateway_initialization check_l2_router_initialization
      check_l2_standard_gateway_initialization check_l2_custom_gateway_initialization
      check_l2_weth_gateway_initialization check_l2_multicall_initialization
  check_contracts a = do
    let l1 = a.l1_deployment
    let l2 = a.l2_deployment
    let r = a.rollup_addresses
    check_l1_router_initialization N l1.router l1 l2 r
    check_l1_standard_gateway_initialization N l1.standard_gateway l1 l2 r
    check_l1_custom_gateway_initialization N l1.custom_gateway l1 l2 r
    using_fee_token ← is_using_fee_token N r.inbox
    if using_fee_token
        then check_no_weth l1 l2
        else check_l1_weth_gateway_initialization N l1.weth_gateway l1 l2 r
    check_l2_router_initialization N l2.router l1 l2
    check_l2_standard_gateway_initialization N l2.standard_gateway l1 l2
    check_l2_custom_gateway_initialization N l2.custom_gateway l1 l2
    check_l2_multicall_initialization N l2.multicall
    when (not using_fee_token) (check_l2_weth_gateway_initialization N l2.weth_gateway l1 l2)
    pure using_fee_token

  unfoldable pub check_roles_and_owners : Addresses → Bool → Run N (Unit {0})
  unfolding check_l1_upgrade_executor_initialization check_l2_upgrade_executor_initialization
      check_l1_ownership check_l2_ownership check_logic_contracts
  check_roles_and_owners a using_fee_token = do
    let r = a.rollup_addresses
    check_l1_upgrade_executor_initialization N r.upgrade_executor r
    check_l2_upgrade_executor_initialization N a.l2_deployment.upgrade_executor r
    check_l1_ownership N a.l1_deployment r
    check_l2_ownership N a.l2_deployment using_fee_token
    check_logic_contracts N using_fee_token a.l2_deployment

  -- The registration of the WETH gateway comes last, since it is a step of its own.
  unfoldable pub check_registration : Addresses → Bool → Run N (Unit {0})
  unfolding is_local_deployment check_weth_gateway_is_registered
  check_registration a using_fee_token = when (not using_fee_token) (do
    is_local ← is_local_deployment
    when (not is_local) (
        check_weth_gateway_is_registered N a.l1_deployment.weth_gateway a.l1_deployment.router
          a.l2_deployment.weth_gateway a.l2_deployment.router))

  unfoldable pub token_bridge_test : TestVars → Run N (Unit {0})
  unfolding entry_addresses get_addresses expect check_contracts check_roles_and_owners
      check_registration
  token_bridge_test v = do
    e ← entry_addresses v
    a ← get_addresses N e.rollup e.l1_token_bridge_creator
    sender ← read N parent e.l1_token_bridge_creator Getter.retryable_sender
    expected ← ask (λ _. e.l1_retryable_sender)
    expect N (same_address sender expected)
    using_fee_token ← check_contracts a
    check_roles_and_owners a using_fee_token
    check_registration a using_fee_token
