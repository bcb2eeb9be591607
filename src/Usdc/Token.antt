-- ===== src/Usdc/Token.antt =====
-- `_deployProxyAdmin`, `_deployUsdcLogic`, `_deployUsdcProxy` and `_deployBridgedUsdc`.
pub mod Scope
use arb_bridge_peripherals.Base.{
  ℕ, Bool, [], ◌∷◌, Text, codes, pure, throw_if, any_run, ◌>>=◌, ◌>>◌,
}
use arb_bridge_peripherals.Chain.Types.{Layer, child, Getter, NumberGetter, Contract, Calldata}
use arb_bridge_peripherals.Chain.{Network, Run, deploy, send, differs, differs_number}
use arb_bridge_peripherals.Usdc.Linking.{link_library}

unfoldable pub dead : Text
dead = codes "0x000000000000000000000000000000000000dEaD"

-- The values that `_deployBridgedUsdc` sets and reads back.
pub record TokenSetup : Type 0 where
  pub name : Text
  pub symbol : Text
  pub currency : Text
  pub decimals : ℕ
  pub master_minter : Text
  pub pauser : Text
  pub blacklister : Text
  pub owner : Text
  pub lost_and_found : Text

unfoldable pub proxy_setup : Text → Text → TokenSetup
proxy_setup deployer master_minter = record {
  name = codes "USDC";
  symbol = codes "USDC.e";
  currency = codes "USD";
  decimals = 6;
  master_minter = master_minter;
  pauser = deployer;
  blacklister = deployer;
  owner = deployer;
  lost_and_found = deployer;
}

unfoldable pub logic_setup : TokenSetup
unfolding dead
logic_setup = record {
  name = [];
  symbol = [];
  currency = [];
  decimals = 0;
  master_minter = dead;
  pauser = dead;
  blacklister = dead;
  owner = dead;
  lost_and_found = dead;
}

module _ (N : Network) where
  unfoldable pub deploy_proxy_admin : Layer → Text → Run N Text
  deploy_proxy_admin l deployer = deploy N l deployer Contract.proxy_admin

  -- `bytecode` is that of the token's artifact, a file of a package.
  unfoldable pub deploy_usdc_logic : Text → Text → Run N Text
  deploy_usdc_logic bytecode deployer = do
    sig_checker_lib ← deploy N child deployer Contract.signature_checker
    deploy N child deployer (Contract.fiat_token (link_library bytecode sig_checker_lib))

  unfoldable pub deploy_usdc_proxy : Text → Text → Text → Run N Text
  deploy_usdc_proxy deployer bridged_usdc_logic proxy_admin = do
    usdc_proxy ← deploy N child deployer (Contract.fiat_token_proxy bridged_usdc_logic)
    send N child deployer
        (record { to = usdc_proxy; value = 0; calldata = Calldata.change_admin proxy_admin })
    pure usdc_proxy

  unfoldable pub call_token : Text → Text → Calldata → Run N (Unit {0})
  call_token deployer token c = do
    send N child deployer (record { to = token; value = 0; calldata = c })
    pure tt

  -- The four `initialize` transactions of one token contract.
  unfoldable pub initialize_token : Text → Text → TokenSetup → Run N (Unit {0})
  initialize_token deployer token s = do
    call_token deployer token (
        Calldata.initialize_fiat_token s.name s.symbol s.currency s.decimals s.master_minter
          s.pauser s.blacklister s.owner)
    call_token deployer token (Calldata.initialize_v2 s.name)
    call_token deployer token (Calldata.initialize_v2_1 s.lost_and_found)
    call_token deployer token (Calldata.initialize_v2_2 [] s.symbol)

  -- Whether a value that was set does not read back.
  unfoldable pub token_differs : Text → TokenSetup → Run N Bool
  token_differs token s = any_run (
      differs N child token Getter.name s.name
      ∷ differs N child token Getter.symbol s.symbol
      ∷ differs N child token Getter.currency s.currency
      ∷ differs_number N child token NumberGetter.decimals s.decimals
      ∷ differs N child token Getter.master_minter s.master_minter
      ∷ differs N child token Getter.pauser s.pauser
      ∷ differs N child token Getter.blacklister s.blacklister
      ∷ differs N child token Getter.owner s.owner
      ∷ [])

  -- Returns the addresses of the token's proxy and of the master minter.
  unfoldable pub deploy_bridged_usdc : Text → Text → Text → Run N (Text × Text)
  deploy_bridged_usdc bytecode deployer proxy_admin = do
    logic ← deploy_usdc_logic bytecode deployer
    proxy ← deploy_usdc_proxy deployer logic proxy_admin
    master_minter ← deploy N child deployer (Contract.master_minter proxy)
    initialize_token deployer proxy (proxy_setup deployer master_minter)
    proxy_wrong ← token_differs proxy (proxy_setup deployer master_minter)
    throw_if proxy_wrong "Bridged USDC initialization was not successful, might have been frontrun"
    initialize_token deployer logic logic_setup
    logic_wrong ← token_differs logic logic_setup
    throw_if logic_wrong "Bridged USDC logic initialization was not successful"
    pure (proxy, master_minter)
