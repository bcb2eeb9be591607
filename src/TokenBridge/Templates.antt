-- ===== src/TokenBridge/Templates.antt =====
-- The logic contracts of `deployL1TokenBridgeCreator`: each is deployed on the parent chain, and those
-- that have an initializer are initialized with dummy values.
use arb_bridge_peripherals.Base.{List, [], ◌∷◌, Text, codes, replicate, pure, ◌>>=◌, ◌>>◌}
use arb_bridge_peripherals.Chain.Types.{parent, Contract, Calldata, L1Templates, L2Templates}
use arb_bridge_peripherals.Chain.{Network, Run, deploy, send}

-- `ADDRESS_DEAD`
unfoldable pub address_dead : Text
address_dead = codes "0x000000000000000000000000000000000000dEaD"

-- `ethers.utils.hexZeroPad('0x01', 32)`
unfoldable pub one_padded : Text
one_padded = codes "0x0000000000000000000000000000000000000000000000000000000000000001"

module _ (N : Network) where
  -- `new Factory(l1Deployer).deploy()`, `deployed()`, then `initialize`
  unfoldable pub deploy_initialized : Text → Contract → List Text → Run N Text
  deploy_initialized deployer contract args = do
    template ← deploy N parent deployer contract
    send N parent deployer
        (record { to = template; value = 0; calldata = Calldata.initialize args })
    pure template

  unfoldable pub deploy_l1_templates : Text → Run N L1Templates
  deploy_l1_templates deployer = do
    router ← deploy_initialized deployer Contract.l1_gateway_router (replicate 5 address_dead)
    standard ←
        deploy_initialized deployer Contract.l1_erc20_gateway
          (address_dead ∷ address_dead ∷ address_dead ∷ one_padded ∷ address_dead ∷ [])
    custom ← deploy_initialized deployer Contract.l1_custom_gateway (replicate 4 address_dead)
    weth ← deploy_initialized deployer Contract.l1_weth_gateway (replicate 5 address_dead)
    orbit_router ←
        deploy_initialized deployer Contract.l1_orbit_gateway_router (replicate 5 address_dead)
    orbit_standard ←
        deploy_initialized deployer Contract.l1_orbit_erc20_gateway
          (address_dead ∷ address_dead ∷ address_dead ∷ one_padded ∷ address_dead ∷ [])
    orbit_custom ←
        deploy_initialized deployer Contract.l1_orbit_custom_gateway (replicate 4 address_dead)
    executor ← deploy N parent deployer Contract.upgrade_executor
    pure (record {
      router_template = router;
      standard_gateway_template = standard;
      custom_gateway_template = custom;
      weth_gateway_template = weth;
      fee_token_based_router_template = orbit_router;
      fee_token_based_standard_gateway_template = orbit_standard;
      fee_token_based_custom_gateway_template = orbit_custom;
      upgrade_executor = executor;
    })

  -- The child chain's contracts, as placeholders; the multicall has been deployed before.
  unfoldable pub deploy_l2_templates : Text → Text → Run N L2Templates
  deploy_l2_templates deployer multicall = do
    factory ← deploy N parent deployer Contract.l2_atomic_token_bridge_factory
    router ← deploy_initialized deployer Contract.l2_gateway_router (replicate 2 address_dead)
    standard ← deploy_initialized deployer Contract.l2_erc20_gateway (replicate 3 address_dead)
    custom ← deploy_initialized deployer Contract.l2_custom_gateway (replicate 2 address_dead)
    weth_gateway ← deploy_initialized deployer Contract.l2_weth_gateway (replicate 4 address_dead)
    weth ← deploy N parent deployer Contract.ae_weth
    pure (record {
      l2_token_bridge_factory = factory;
      l2_gateway_router = router;
      l2_standard_gateway = standard;
      l2_custom_gateway = custom;
      l2_weth_gateway = weth_gateway;
      l2_weth = weth;
      l2_multicall = multicall;
    })
