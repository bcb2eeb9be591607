-- ===== src/Blockscout.antt =====
-- The verification of an orbit chain's bridge on Blockscout, scripts/orbitVerifyOnBlockscout.ts.
-- Hardhat's task `verify:verify` is outside code: it takes the address and the constructor's arguments,
-- and succeeds or raises an error with a message.
use arb_bridge_peripherals.Base.{
  String, Bool, true, Option, none, some, [], ◌∷◌, List, Text, codes, Script, Result, ok, err,
  failed, pure, throw_if, ask, catch, when, not, ◌>>=◌, ◌>>◌, ◌||◌, if◌then◌else◌,
}
use arb_bridge_peripherals.Chain.{Network, World, Run, read, deploy, submit}
use arb_bridge_peripherals.Chain.Types.{parent, child, Getter, Contract}
use arb_bridge_peripherals.Chain.NetworkTypes.{L2Deployment}
use arb_bridge_peripherals.DeploymentCheck.{get_logic_address}
use arb_bridge_peripherals.Usdc.Env.{Env, is_missing, value_of}
pub mod Outcomes
mod Tests

-- The error's message, if `verify:verify` raises one.
abbrev pub Explorer : Type 0
Explorer = Text → List Text → Option Text

module _ (N : Network) where
  abbrev pub Verify : Type 0
  Verify = String → Text → List Text → Run N (Unit {0})

  unfoldable pub run_verify : Explorer → Verify
  run_verify explorer name address args = do
    submit N name address args
    ask (λ _. elim (explorer address args) [ none ↦ some tt | some message ↦ none ])

  -- `_verifyContract`: an error is printed, whether it says that the contract is verified already or not.
  unfoldable pub verify_contract_code : Explorer → Verify
  unfolding run_verify
  verify_contract_code explorer name address args =
      catch (run_verify explorer name address args) (pure tt)

  -- `new ethers.Wallet(key)` raises an error on a key that is undefined.
  unfoldable pub deployer_wallet : Env → Run N Text
  deployer_wallet env =
      ask (λ _. elim (env "DEPLOYER_KEY") [ none ↦ none | some key ↦ N.wallet_address key ])

  unfoldable pub verify_orbit_contracts : Verify → Text → L2Deployment → Run N (Unit {0})
  unfolding get_logic_address
  verify_orbit_contracts verify l2_factory l2 = do
    beacon ← read N child l2.beacon_proxy_factory Getter.beacon
    standard ← read N child beacon Getter.implementation
    _ ← ask (λ w. N.chain_id child w.chain)
    verify "L2AtomicTokenBridgeFactory" l2_factory []
    verify "TransparentUpgradeableProxy" l2.router (l2_factory ∷ l2.proxy_admin ∷ codes "0x" ∷ [])
    router ← get_logic_address N child l2.router
    verify "L2GatewayRouter" router []
    standard_gateway ← get_logic_address N child l2.standard_gateway
    verify "L2ERC20Gateway" standard_gateway []
    custom_gateway ← get_logic_address N child l2.custom_gateway
    verify "L2CustomGateway" custom_gateway []
    weth_gateway ← get_logic_address N child l2.weth_gateway
    verify "L2WethGateway" weth_gateway []
    verify "BeaconProxyFactory" l2.beacon_proxy_factory []
    verify "UpgradeableBeacon" beacon (standard ∷ [])
    verify "StandardArbERC20" standard []
    verify "ArbMulticall2" l2.multicall []
    verify "ProxyAdmin" l2.proxy_admin []

  -- Contracts of the same code are deployed to be verified in the place of two others.
  unfoldable pub verify_dummies : Verify → Text → Run N (Unit {0})
  verify_dummies verify deployer = do
    weth ← deploy N child deployer Contract.ae_weth
    verify "aeWETH" weth []
    executor ← deploy N child deployer Contract.upgrade_executor
    verify "UpgradeExecutor" executor []

  -- `main`, with `_verifyContract` as an argument
  unfoldable pub verify_all : Verify → Env → Run N (Unit {0})
  unfolding deployer_wallet verify_orbit_contracts verify_dummies
  verify_all verify env = do
    throw_if
        (is_missing env "BASECHAIN_RPC"
          || is_missing env "L1_TOKEN_BRIDGE_CREATOR"
          || is_missing env "INBOX_ADDRESS")
        "Required env vars: BASECHAIN_RPC, L1_TOKEN_BRIDGE_CREATOR, INBOX_ADDRESS"
    deployer ← deployer_wallet env
    l2_factory ←
        read N parent (value_of env "L1_TOKEN_BRIDGE_CREATOR") Getter.canonical_l2_factory_address
    l2 ← ask (λ w.
        N.inbox_to_l2_deployment (value_of env "L1_TOKEN_BRIDGE_CREATOR")
          (value_of env "INBOX_ADDRESS") w.chain)
    verify_orbit_contracts verify l2_factory l2
    when (not (is_missing env "DEPLOYER_KEY")) (verify_dummies verify deployer)

  unfoldable pub verify_on_blockscout : Explorer → Env → Run N (Unit {0})
  unfolding verify_contract_code verify_all
  verify_on_blockscout explorer env = verify_all (verify_contract_code explorer) env
