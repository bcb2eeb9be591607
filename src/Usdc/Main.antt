-- ===== src/Usdc/Main.antt =====
-- `main`, `_loadWallets` and `_addMinterRoleToL2Gateway`.
use arb_bridge_peripherals.Base.{ℕ, ◌-◌, ◌^◌, Text, ask, pure, ◌>>=◌, ◌>>◌}
use arb_bridge_peripherals.Chain.Types.{parent, child, Calldata}
use arb_bridge_peripherals.Chain.{Network, Run, send}
use arb_bridge_peripherals.Networks.{register_networks_by_inbox}
use arb_bridge_peripherals.Usdc.Env.{Env, value_of, settings_of, rollup_owner_key, check_env_vars}
use arb_bridge_peripherals.Usdc.Token.{deploy_proxy_admin, deploy_bridged_usdc}
use arb_bridge_peripherals.Usdc.Gateways.{
  deploy_l1_usdc_gateway, deploy_l2_usdc_gateway, initialize_gateways,
}
use arb_bridge_peripherals.Usdc.Registration.{register_gateway}

-- `ethers.constants.MaxUint256`
unfoldable pub max_uint256 : ℕ
max_uint256 = 2 ^ 256 - 1

module _ (N : Network) where
  -- The addresses of the wallets on the parent and on the child chain.
  unfoldable pub load_wallets : Env → Run N (Text × Text)
  load_wallets env = do
    deployer_l1 ← ask (λ _. N.wallet_address (value_of env "PARENT_DEPLOYER_KEY"))
    deployer_l2 ← ask (λ _. N.wallet_address (value_of env "CHILD_DEPLOYER_KEY"))
    pure (deployer_l1, deployer_l2)

  unfoldable pub add_minter_role_to_l2_gateway : Text → Text → Text → Run N (Unit {0})
  add_minter_role_to_l2_gateway l2_gateway master_minter_owner master_minter = do
    send N child master_minter_owner (record {
      to = master_minter;
      value = 0;
      calldata = Calldata.configure_controller master_minter_owner l2_gateway;
    })
    send N child master_minter_owner
        (record { to = master_minter; value = 0; calldata = Calldata.configure_minter max_uint256 })
    pure tt

  -- `bytecode` is that of the token's artifact.
  unfoldable pub main : Env → Text → Run N (Unit {0})
  main env bytecode = do
    check_env_vars env
    (deployer_l1, deployer_l2) ← load_wallets env
    let inbox = value_of env "INBOX"
    register_networks_by_inbox N inbox
    proxy_admin_l1 ← deploy_proxy_admin N parent deployer_l1
    proxy_admin_l2 ← deploy_proxy_admin N child deployer_l2
    (l2_usdc, master_minter) ← deploy_bridged_usdc N bytecode deployer_l2 proxy_admin_l2
    l1_gateway ← deploy_l1_usdc_gateway N deployer_l1 proxy_admin_l1 inbox
    l2_gateway ← deploy_l2_usdc_gateway N deployer_l2 proxy_admin_l2
    initialize_gateways N (settings_of env) l1_gateway l2_gateway inbox l2_usdc deployer_l1
        deployer_l2
    register_gateway N (settings_of env) (rollup_owner_key env) inbox l1_gateway
    add_minter_role_to_l2_gateway l2_gateway deployer_l2 master_minter
