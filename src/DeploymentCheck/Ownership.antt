-- ===== src/DeploymentCheck/Ownership.antt =====
-- The checks of the proxies' admins, the owners, the logic contracts, and the registration of the WETH
-- gateway.
use arb_bridge_peripherals.Base.{Bool, not, Text, ◌===◌, to_lower_case, ◌>>=◌, ◌>>◌, when}
use arb_bridge_peripherals.Chain.{Network, Run, read}
use arb_bridge_peripherals.Chain.Types.{Layer, parent, child, Getter}
use arb_bridge_peripherals.Chain.NetworkTypes.{L1Deployment, L2Deployment}
use arb_bridge_peripherals.Chain.FeeToken.{address_zero}
use arb_bridge_peripherals.DeploymentCheck.{
  RollupAddresses, expect, get_proxy_admin, get_logic_address, get_owner, is_initialized,
}

module _ (N : Network) where
  -- `expect(await _getProxyAdmin(contract, provider)).to.be.eq(admin)`, and the same of `_getOwner`
  unfoldable pub expect_proxy_admin : Layer → Text → Text → Run N (Unit {0})
  unfolding expect get_proxy_admin
  expect_proxy_admin l a expected = do admin ← get_proxy_admin N l a; expect N (admin === expected)

  unfoldable pub expect_owner : Layer → Text → Text → Run N (Unit {0})
  unfolding expect get_owner
  expect_owner l a expected = do owner ← get_owner N l a; expect N (owner === expected)

  -- `expect(await logic.getter()).to.be.not.eq(ethers.constants.AddressZero)`
  unfoldable pub expect_set : Layer → Text → Getter → Run N (Unit {0})
  unfolding expect
  expect_set l a g = do v ← read N l a g; expect N (not (v === address_zero))

  -- the same, of the logic contract behind a proxy
  unfoldable pub expect_logic_set : Layer → Text → Getter → Run N (Unit {0})
  unfolding expect_set get_logic_address
  expect_logic_set l a g = do logic ← get_logic_address N l a; expect_set l logic g

  unfoldable pub check_l1_ownership : L1Deployment → RollupAddresses → Run N (Unit {0})
  unfolding expect_proxy_admin expect_owner
  check_l1_ownership l1 r = do
    expect_proxy_admin parent l1.router r.proxy_admin
    expect_proxy_admin parent l1.standard_gateway r.proxy_admin
    expect_proxy_admin parent l1.custom_gateway r.proxy_admin
    when (not (l1.weth_gateway === address_zero))
        (expect_proxy_admin parent l1.weth_gateway r.proxy_admin)
    expect_proxy_admin parent r.upgrade_executor r.proxy_admin
    expect_owner parent r.proxy_admin r.upgrade_executor
    expect_owner parent l1.router r.upgrade_executor
    expect_owner parent l1.custom_gateway r.upgrade_executor

  unfoldable pub check_l2_ownership : L2Deployment → Bool → Run N (Unit {0})
  unfolding get_proxy_admin expect_proxy_admin expect_owner
  check_l2_ownership l2 using_fee_token = do
    l2_proxy_admin ← get_proxy_admin N child l2.router
    expect_proxy_admin child l2.router l2_proxy_admin
    expect_proxy_admin child l2.standard_gateway l2_proxy_admin
    expect_proxy_admin child l2.custom_gateway l2_proxy_admin
    when (not using_fee_token) (expect_proxy_admin child l2.weth_gateway l2_proxy_admin)
    expect_proxy_admin child l2.upgrade_executor l2_proxy_admin
    expect_owner child l2_proxy_admin (to_lower_case l2.upgrade_executor)

  unfoldable pub check_logic_contracts : Bool → L2Deployment → Run N (Unit {0})
  unfolding get_logic_address is_initialized expect expect_logic_set
  check_logic_contracts using_fee_token l2 = do
    executor_logic ← get_logic_address N child l2.upgrade_executor
    initialized ← is_initialized N child executor_logic
    expect N initialized
    expect_logic_set child l2.router Getter.counterpart_gateway
    expect_logic_set child l2.standard_gateway Getter.counterpart_gateway
    expect_logic_set child l2.custom_gateway Getter.counterpart_gateway
    when (not using_fee_token) (do
      expect_logic_set child l2.weth_gateway Getter.counterpart_gateway
      expect_logic_set child l2.weth Getter.l2_gateway)

  -- The WETH gateways and the routers, on the parent and on the child chain.
  unfoldable pub check_weth_gateway_is_registered : Text → Text → Text → Text → Run N (Unit {0})
  unfolding expect
  check_weth_gateway_is_registered l1_weth_gateway l1_router l2_weth_gateway l2_router = do
    weth ← read N parent l1_weth_gateway Getter.l1_weth
    a ← read N parent l1_router (Getter.l1_token_to_gateway weth)
    expect N (a === l1_weth_gateway)
    b ← read N parent l1_router (Getter.get_gateway weth)
    expect N (b === l1_weth_gateway)
    c ← read N child l2_router (Getter.l1_token_to_gateway weth)
    expect N (c === l2_weth_gateway)
    d ← read N child l2_router (Getter.get_gateway weth)
    expect N (d === l2_weth_gateway)
