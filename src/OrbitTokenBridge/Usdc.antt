-- ===== src/OrbitTokenBridge/Usdc.antt =====
-- `can upgrade from bridged USDC to native USDC`, on a chain that pays its fees in ETH or in a token: the
-- gateways and the tokens (here), the registration and a deposit (Registration), and the handover to
-- Circle (Handover).
pub mod Registration
pub mod Handover
use arb_bridge_peripherals.Base.{ℕ, Option, none, some, [], ◌∷◌, Text, codes, pure, ◌>>=◌, ◌>>◌}
use arb_bridge_peripherals.Chain.Types.{Layer, parent, child, Contract, Calldata}
use arb_bridge_peripherals.Chain.{Network, Run, deploy, random_address}
use arb_bridge_peripherals.OrbitTokenBridge.{Setup, call}
use arb_bridge_peripherals.Usdc.Linking.{link_library}

-- The contracts of the migration.
pub record UsdcContracts : Type 0 where
  pub proxy_admin_l2 : Text
  pub l1_gateway : Text
  pub l2_gateway : Text
  pub l1_usdc : Text
  pub l2_usdc : Text

abbrev pub l1_gateway_logic : Option Text → Contract
l1_gateway_logic none = Contract.l1_usdc_gateway
l1_gateway_logic (some native) = Contract.l1_orbit_usdc_gateway

module _ (N : Network) where
  -- A proxy admin and a gateway behind a proxy.
  unfoldable pub deploy_gateway : Layer → Text → Contract → Run N (Text × Text)
  deploy_gateway l deployer gateway = do
    proxy_admin ← deploy N l deployer Contract.proxy_admin
    logic ← deploy N l deployer gateway
    proxy ←
        deploy N l deployer (Contract.transparent_upgradeable_proxy logic proxy_admin (codes "0x"))
    pure (proxy_admin, proxy)

  -- `_deployUsdcToken`; `bytecode` is that of the token's artifact.
  unfoldable pub deploy_usdc_token : Text → Layer → Text → Run N Text
  deploy_usdc_token bytecode l deployer = do
    sig_checker_lib ← deploy N l deployer Contract.signature_checker
    deploy N l deployer (Contract.fiat_token (link_library bytecode sig_checker_lib))

  -- The four `initialize` transactions of a token; the last of them is given the symbol.
  unfoldable pub initialize_usdc : Layer → Text → Text → Text → Run N (Unit {0})
  unfolding call
  initialize_usdc l deployer token symbol = do
    pauser ← random_address N
    blacklister ← random_address N
    call N l deployer token 0 (
        Calldata.initialize_fiat_token (codes "USDC token") (codes "USDC.e") (codes "USD") 6
          deployer pauser blacklister deployer)
    call N l deployer token 0 (Calldata.initialize_v2 (codes "USDC"))
    lost_and_found ← random_address N
    call N l deployer token 0 (Calldata.initialize_v2_1 lost_and_found)
    call N l deployer token 0 (Calldata.initialize_v2_2 [] symbol)
    pure tt

  unfoldable pub deploy_l1_usdc : Text → Text → Text → Run N Text
  unfolding deploy_usdc_token initialize_usdc
  deploy_l1_usdc bytecode deployer proxy_admin = do
    logic ← deploy_usdc_token bytecode parent deployer
    token ←
        deploy N parent deployer
          (Contract.transparent_upgradeable_proxy logic proxy_admin (codes "0x"))
    initialize_usdc parent deployer token (codes "USDC")
    pure token

  -- `_deployUsdcProxy`, and the token's initialization
  unfoldable pub deploy_l2_usdc : Text → Text → Text → Run N Text
  unfolding call deploy_usdc_token initialize_usdc
  deploy_l2_usdc bytecode deployer proxy_admin = do
    logic ← deploy_usdc_token bytecode child deployer
    token ← deploy N child deployer (Contract.fiat_token_proxy logic)
    call N child deployer token 0 (Calldata.change_admin proxy_admin)
    initialize_usdc child deployer token (codes "USDC.e")
    pure token

  unfoldable pub initialize_usdc_gateways : Setup → UsdcContracts → Run N (Unit {0})
  unfolding call
  initialize_usdc_gateways s c = do
    call N parent s.deployer c.l1_gateway 0 (
        Calldata.initialize (
          c.l2_gateway ∷ s.l2_network.token_bridge.l1_gateway_router ∷ s.l2_network.eth_bridge.inbox
          ∷ c.l1_usdc ∷ c.l2_usdc ∷ s.deployer ∷ []))
    call N child s.deployer c.l2_gateway 0 (
        Calldata.initialize (
          c.l1_gateway ∷ s.l2_network.token_bridge.l2_gateway_router ∷ c.l1_usdc ∷ c.l2_usdc
          ∷ s.deployer ∷ []))
    pure tt

  -- Everything that is deployed before the registration.
  unfoldable pub deploy_usdc : Text → Setup → Run N UsdcContracts
  unfolding deploy_gateway deploy_l1_usdc deploy_l2_usdc initialize_usdc_gateways
  deploy_usdc bytecode s = do
    l1 ← deploy_gateway parent s.deployer (l1_gateway_logic s.native_token)
    l2 ← deploy_gateway child s.deployer Contract.l2_usdc_gateway
    l1_usdc ← deploy_l1_usdc bytecode s.deployer l1.0
    l2_usdc ← deploy_l2_usdc bytecode s.deployer l2.0
    let contracts : UsdcContracts = record {
      proxy_admin_l2 = l2.0;
      l1_gateway = l1.1;
      l2_gateway = l2.1;
      l1_usdc = l1_usdc;
      l2_usdc = l2_usdc;
    }
    initialize_usdc_gateways s contracts
    pure contracts
