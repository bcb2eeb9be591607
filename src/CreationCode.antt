-- ===== src/CreationCode.antt =====
-- The test of the creation code, test-e2e/creationCodeTest.ts. The compiler's artifacts and the library
-- contract `CreationCodeTest` are outside code.
use arb_bridge_peripherals.Base.{
  ℕ, ◌*◌, Bool, true, false, not, Option, none, some, List, [], ◌∷◌, Text, codes, length, drop,
  ◌===◌, ◌==◌, pure, throw, throw_if, ask, ◌>>=◌, ◌>>◌, if◌then◌else◌,
}
use arb_bridge_peripherals.Chain.{Network, Run, read}
use arb_bridge_peripherals.Chain.Types.{parent, Getter}
use arb_bridge_peripherals.DeploymentCheck.{expect}
use arb_bridge_peripherals.Upgrades.Signer.{starts, includes}
pub mod Constructor
mod Tests

pub record Artifact : Type 0 where
  pub bytecode : Text
  pub deployed_bytecode : Text

-- `text.replace(part, '')`: the first occurrence goes.
unfoldable pub remove_first : Text → Text → Text
remove_first part [] = []
remove_first part (c ∷ cs) =
    let rest = remove_first part cs in
    if starts part (c ∷ cs) then drop (length part) (c ∷ cs) else c ∷ rest

module _ (N : Network) (artifacts : Text → Option Artifact) where
  unfoldable pub get_compiler_generated_creation_code : Text → Run N Text
  get_compiler_generated_creation_code name = do
    artifact ← ask (λ _. artifacts name)
    pure artifact.bytecode

  -- What the creation code has besides the runtime code.
  unfoldable pub get_constructor_bytecode : Text → Run N Text
  unfolding remove_first
  get_constructor_bytecode name = do
    artifact ← ask (λ _. artifacts name)
    let creation_code = drop 2 artifact.bytecode
    let runtime_code = drop 2 artifact.deployed_bytecode
    throw_if (not (includes runtime_code creation_code))
        "Error while extracting constructor bytecode for contract ${contractName}."
    pure (remove_first runtime_code creation_code)

  -- `expect(_lengthInBytes(code)).to.be.eq(size)`, where a byte is two characters
  unfoldable pub expect_constructor_size : Text → ℕ → Run N (Unit {0})
  unfolding get_constructor_bytecode expect
  expect_constructor_size name size = do
    code ← get_constructor_bytecode name
    expect N (length code == size * 2)

  unfoldable pub ae_weth_size_test : Run N (Unit {0})
  unfolding expect_constructor_size
  ae_weth_size_test = expect_constructor_size (codes "aeWETH") 348

  unfoldable pub upgrade_executor_size_test : Run N (Unit {0})
  unfolding expect_constructor_size
  upgrade_executor_size_test =
      expect_constructor_size
        (codes "@offchainlabs/upgrade-executor/src/UpgradeExecutor.sol:UpgradeExecutor") 242

module _ (N : Network) (artifacts : Text → Option Artifact)
    (creation_code_for : Text → Option Text) where
  unfoldable pub get_solidity_lib_generated_creation_code : Text → Run N Text
  get_solidity_lib_generated_creation_code template = do
    code ← read N parent template Getter.code
    ask (λ _. creation_code_for code)

  unfoldable pub expect_creation_code : Text → Text → Getter → Run N (Unit {0})
  unfolding get_compiler_generated_creation_code get_solidity_lib_generated_creation_code expect
  expect_creation_code name creator template = do
    compiled ← get_compiler_generated_creation_code N artifacts name
    address ← read N parent creator template
    generated ← get_solidity_lib_generated_creation_code address
    expect N (compiled === generated)

  -- The first test, with the creator of `network.json`.
  unfoldable pub creation_code_test : Text → Run N (Unit {0})
  unfolding expect_creation_code
  creation_code_test creator = do
    expect_creation_code (codes "L2GatewayRouter") creator Getter.l2_router_template
    expect_creation_code (codes "L2ERC20Gateway") creator Getter.l2_standard_gateway_template
    expect_creation_code (codes "L2CustomGateway") creator Getter.l2_custom_gateway_template
    expect_creation_code (codes "L2WethGateway") creator Getter.l2_weth_gateway_template
    expect_creation_code (codes "ArbMulticall2") creator Getter.l2_multicall_template
    expect_creation_code (codes "L2AtomicTokenBridgeFactory") creator
        Getter.l2_token_bridge_factory_template
