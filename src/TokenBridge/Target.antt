-- ===== src/TokenBridge/Target.antt =====
-- The scripts that a user runs with a target chain in the environment:
-- scripts/deployment/createTokenBridge.ts and scripts/deployment/deployTokenBridgeCreator.ts.
use arb_bridge_peripherals.Base.{
  ℕ, Bool, true, false, not, ◌&&◌, Option, none, some, List, [], ◌∷◌, String, ◌<>◌, Text, pure, ask,
  throw_if, ◌>>=◌, ◌>>◌, for_each, if◌then◌else◌, Script,
}
use arb_bridge_peripherals.Chain.NetworkTypes.{TokenBridge}
use arb_bridge_peripherals.Chain.Types.{target_networks}
use arb_bridge_peripherals.Chain.{Network, Run, save_networks}
use arb_bridge_peripherals.Networks.{NetworkPair, register_networks}
use arb_bridge_peripherals.TokenBridge.Gas.{get_estimate_for_deploying_factory}
use arb_bridge_peripherals.TokenBridge.Create.{Deployment, create_token_bridge}
use arb_bridge_peripherals.TokenBridge.Creator.{deploy_l1_token_bridge_creator}
use arb_bridge_peripherals.Usdc.Env.{Env, is_missing, value_of}

abbrev is_undefined : Env → String → Bool
is_undefined env name = elim (env name) [ none ↦ true | some value ↦ false ]

abbrev target_vars : List String
target_vars =
    "ROLLUP_ADDRESS" ∷ "ROLLUP_OWNER" ∷ "L1_TOKEN_BRIDGE_CREATOR" ∷ "BASECHAIN_RPC"
    ∷ "BASECHAIN_DEPLOYER_KEY" ∷ "ORBIT_RPC" ∷ []

-- The variables of `createTokenBridgeOnTargetChain`, which may be empty but not unset.
unfoldable pub check_target_vars : {S : Type 0} → Env → Script S (Unit {0})
check_target_vars env =
    for_each (λ name. throw_if (is_undefined env name) ("Missing " <> name <> " in env vars"))
      target_vars

unfoldable pub token_bridge_of : Deployment → TokenBridge
token_bridge_of d = record {
  l1_custom_gateway = d.l1_deployment.custom_gateway;
  l1_erc20_gateway = d.l1_deployment.standard_gateway;
  l1_gateway_router = d.l1_deployment.router;
  l1_multi_call = d.l1_multi_call;
  l1_proxy_admin = d.l1_proxy_admin;
  l1_weth = d.l1_deployment.weth;
  l1_weth_gateway = d.l1_deployment.weth_gateway;
  l2_custom_gateway = d.l2_deployment.custom_gateway;
  l2_erc20_gateway = d.l2_deployment.standard_gateway;
  l2_gateway_router = d.l2_deployment.router;
  l2_multicall = d.l2_deployment.multicall;
  l2_proxy_admin = d.l2_deployment.proxy_admin;
  l2_weth = d.l2_deployment.weth;
  l2_weth_gateway = d.l2_deployment.weth_gateway;
}

module _ (N : Network) where
  -- `getSigner` with a key that is set; an empty one takes the provider's first account.
  unfoldable pub signer_of : (key : Text) → (account : Option Text) → Run N Text
  signer_of [] account = ask (λ _. account)
  signer_of (c ∷ cs) account = ask (λ _. N.wallet_address (c ∷ cs))

  unfoldable pub create_token_bridge_on_target_chain : Env → Option Text → Run N NetworkPair
  create_token_bridge_on_target_chain env account = do
    check_target_vars env
    signer ← signer_of (value_of env "BASECHAIN_DEPLOYER_KEY") account
    networks ← register_networks N (value_of env "ROLLUP_ADDRESS")
    d ←
        create_token_bridge N signer (value_of env "L1_TOKEN_BRIDGE_CREATOR")
          (value_of env "ROLLUP_ADDRESS") (value_of env "ROLLUP_OWNER")
    pure (networks.0, record networks.1 { token_bridge = token_bridge_of d })

  -- `main` of createTokenBridge.ts
  unfoldable pub save_token_bridge : Env → Option Text → Run N (Unit {0})
  save_token_bridge env account = do
    networks ← create_token_bridge_on_target_chain env account
    save_networks N (target_networks networks.0 networks.1)

  -- The checks of `deployTokenBridgeCreator`, where an empty value counts as unset.
  unfoldable pub check_creator_vars : Env → Run N (Unit {0})
  check_creator_vars env = do
    throw_if (is_missing env "BASECHAIN_RPC") "Missing BASECHAIN_RPC in env vars"
    throw_if (is_missing env "BASECHAIN_DEPLOYER_KEY") "Missing BASECHAIN_DEPLOYER_KEY in env vars"
    throw_if (is_missing env "BASECHAIN_WETH") "Missing BASECHAIN_WETH in env vars"
    throw_if
        (not (not (is_missing env "ROLLUP_ADDRESS") && not (is_missing env "ORBIT_RPC"))
          && is_missing env "GAS_LIMIT_FOR_L2_FACTORY_DEPLOYMENT")
        "Either GAS_LIMIT_FOR_L2_FACTORY_DEPLOYMENT or (ROLLUP_ADDRESS and ORBIT_RPC) must be set in env vars"

  -- The gas limit of the environment, read by `parse` as `BigNumber.from` does, or an estimate.
  unfoldable pub factory_gas_limit : (parse : Text → Option ℕ) → Env → Text → Run N ℕ
  factory_gas_limit parse env signer =
      if is_missing env "GAS_LIMIT_FOR_L2_FACTORY_DEPLOYMENT"
      then (do
        register_networks N (value_of env "ROLLUP_ADDRESS")
        params ← get_estimate_for_deploying_factory N signer
        pure params.gas_limit)
      else ask (λ _. parse (value_of env "GAS_LIMIT_FOR_L2_FACTORY_DEPLOYMENT"))

  unfoldable pub deploy_token_bridge_creator :
      (parse : Text → Option ℕ) → Env → Option Text → Run N (Text × Text)
  deploy_token_bridge_creator parse env account = do
    check_creator_vars env
    signer ← signer_of (value_of env "BASECHAIN_DEPLOYER_KEY") account
    gas_limit ← factory_gas_limit parse env signer
    deploy_l1_token_bridge_creator N signer (value_of env "BASECHAIN_WETH") gas_limit true
