-- ===== src/DeploymentCheck/Parent.antt =====
-- The checks of the parent chain's contracts.
use arb_bridge_peripherals.Base.{Text, same_address, ask, ◌>>=◌, ◌>>◌}
use arb_bridge_peripherals.Chain.{Network, Run, read}
use arb_bridge_peripherals.Chain.Types.{parent, child, Getter}
use arb_bridge_peripherals.Chain.NetworkTypes.{L1Deployment, L2Deployment}
use arb_bridge_peripherals.DeploymentCheck.{
  RollupAddresses, expect, expect_same, expect_zero, expect_not_zero,
}

module _ (N : Network) where
  unfoldable pub check_l1_router_initialization :
      Text → L1Deployment → L2Deployment → RollupAddresses → Run N (Unit {0})
  unfolding expect_same expect_zero
  check_l1_router_initialization router l1 l2 r = do
    expect_same N parent router Getter.default_gateway l1.standard_gateway
    expect_same N parent router Getter.inbox r.inbox
    expect_zero N parent router Getter.router
    expect_same N parent router Getter.counterpart_gateway l2.router

  unfoldable pub check_l1_standard_gateway_initialization :
      Text → L1Deployment → L2Deployment → RollupAddresses → Run N (Unit {0})
  unfolding expect_same expect_zero
  check_l1_standard_gateway_initialization gateway l1 l2 r = do
    expect_same N parent gateway Getter.counterpart_gateway l2.standard_gateway
    expect_same N parent gateway Getter.router l1.router
    expect_same N parent gateway Getter.inbox r.inbox
    factory ← read N parent gateway Getter.l2_beacon_proxy_factory
    counterpart ← read N parent gateway Getter.counterpart_gateway
    l2_factory ← read N child counterpart Getter.beacon_proxy_factory
    expect N (same_address factory l2_factory)
    hash ← read N parent gateway Getter.cloneable_proxy_hash
    factory' ← read N parent gateway Getter.l2_beacon_proxy_factory
    l2_hash ← read N child factory' Getter.cloneable_proxy_hash
    expect N (same_address hash l2_hash)
    expect_zero N parent gateway Getter.whitelist

  unfoldable pub check_l1_custom_gateway_initialization :
      Text → L1Deployment → L2Deployment → RollupAddresses → Run N (Unit {0})
  unfolding expect_same expect_zero
  check_l1_custom_gateway_initialization gateway l1 l2 r = do
    expect_same N parent gateway Getter.counterpart_gateway l2.custom_gateway
    expect_same N parent gateway Getter.router l1.router
    expect_same N parent gateway Getter.inbox r.inbox
    expect_zero N parent gateway Getter.whitelist

  unfoldable pub check_l1_weth_gateway_initialization :
      Text → L1Deployment → L2Deployment → RollupAddresses → Run N (Unit {0})
  unfolding expect_same expect_not_zero
  check_l1_weth_gateway_initialization gateway l1 l2 r = do
    expect_same N parent gateway Getter.counterpart_gateway l2.weth_gateway
    expect_same N parent gateway Getter.router l1.router
    expect_same N parent gateway Getter.inbox r.inbox
    expect_not_zero N parent gateway Getter.l1_weth
    expect_not_zero N parent gateway Getter.l2_weth

  unfoldable pub check_l1_upgrade_executor_initialization :
      Text → RollupAddresses → Run N (Unit {0})
  unfolding expect
  check_l1_upgrade_executor_initialization executor r = do
    admin_role ← read N parent executor Getter.admin_role
    executor_role ← read N parent executor Getter.executor_role
    own ← ask (λ w. N.has_role parent executor admin_role executor w.chain)
    expect N own
    owned ← ask (λ w. N.has_role parent executor executor_role r.rollup_owner w.chain)
    expect N owned
