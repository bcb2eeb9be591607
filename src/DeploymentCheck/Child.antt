-- ===== src/DeploymentCheck/Child.antt =====
-- The checks of the child chain's contracts.
use arb_bridge_peripherals.Base.{
  Text, ltb, length, ◌===◌, same_address, pure, ask, ◌>>=◌, ◌>>◌, if◌then◌else◌,
}
use arb_bridge_peripherals.Alias.{apply_alias}
use arb_bridge_peripherals.Chain.{Network, Run, read}
use arb_bridge_peripherals.Chain.Types.{parent, child, Getter}
use arb_bridge_peripherals.Chain.NetworkTypes.{L1Deployment, L2Deployment}
use arb_bridge_peripherals.DeploymentCheck.{
  RollupAddresses, expect, expect_same, expect_zero, expect_not_zero, is_initialized,
}

module _ (N : Network) where
  unfoldable pub check_l2_upgrade_executor_initialization :
      Text → RollupAddresses → Run N (Unit {0})
  unfolding expect
  check_l2_upgrade_executor_initialization executor r = do
    admin_role ← read N child executor Getter.admin_role
    executor_role ← read N child executor Getter.executor_role
    own ← ask (λ w. N.has_role child executor admin_role executor w.chain)
    expect N own
    code ← read N parent r.rollup_owner Getter.code
    l2_owner ←
        if ltb 2 (length code) then ask (λ _. apply_alias r.rollup_owner) else pure r.rollup_owner
    owned ← ask (λ w. N.has_role child executor executor_role l2_owner w.chain)
    expect N owned
    l1_executor ← ask (λ _. apply_alias r.upgrade_executor)
    executes ← ask (λ w. N.has_role child executor executor_role l1_executor w.chain)
    expect N executes

  unfoldable pub check_l2_router_initialization :
      Text → L1Deployment → L2Deployment → Run N (Unit {0})
  unfolding expect_same expect_zero
  check_l2_router_initialization router l1 l2 = do
    expect_same N child router Getter.default_gateway l2.standard_gateway
    expect_zero N child router Getter.router
    expect_same N child router Getter.counterpart_gateway l1.router

  unfoldable pub check_l2_standard_gateway_initialization :
      Text → L1Deployment → L2Deployment → Run N (Unit {0})
  unfolding expect expect_same is_initialized
  check_l2_standard_gateway_initialization gateway l1 l2 = do
    expect_same N child gateway Getter.counterpart_gateway l1.standard_gateway
    expect_same N child gateway Getter.router l2.router
    factory ← read N child gateway Getter.beacon_proxy_factory
    counterpart ← read N child gateway Getter.counterpart_gateway
    l1_factory ← read N parent counterpart Getter.l2_beacon_proxy_factory
    expect N (same_address factory l1_factory)
    hash ← read N child gateway Getter.cloneable_proxy_hash
    counterpart' ← read N child gateway Getter.counterpart_gateway
    l1_hash ← read N parent counterpart' Getter.cloneable_proxy_hash
    expect N (same_address hash l1_hash)
    beacon ← read N child factory Getter.beacon
    owner ← read N child beacon Getter.owner
    expect N (owner === l2.upgrade_executor)
    standard ← read N child beacon Getter.implementation
    initialized ← is_initialized N child standard
    expect N initialized

  unfoldable pub check_l2_custom_gateway_initialization :
      Text → L1Deployment → L2Deployment → Run N (Unit {0})
  unfolding expect_same
  check_l2_custom_gateway_initialization gateway l1 l2 = do
    expect_same N child gateway Getter.counterpart_gateway l1.custom_gateway
    expect_same N child gateway Getter.router l2.router

  unfoldable pub check_l2_weth_gateway_initialization :
      Text → L1Deployment → L2Deployment → Run N (Unit {0})
  unfolding expect_same expect_not_zero
  check_l2_weth_gateway_initialization gateway l1 l2 = do
    expect_same N child gateway Getter.counterpart_gateway l1.weth_gateway
    expect_same N child gateway Getter.router l2.router
    expect_not_zero N child gateway Getter.l1_weth
    expect_not_zero N child gateway Getter.l2_weth

  -- Where there is no code, ethers answers `0x`.
  unfoldable pub check_l2_multicall_initialization : Text → Run N (Unit {0})
  unfolding expect
  check_l2_multicall_initialization multicall = do
    code ← read N child multicall Getter.code
    expect N (ltb 2 (length code))
