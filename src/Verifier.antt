-- ===== src/Verifier.antt =====
-- The verifier that the deployment of the creator calls, scripts/contractVerifier.ts: the command line
-- that it hands to the shell. What the command does is outside code; its failure is only printed.
use arb_bridge_peripherals.Base.{
  ℕ, zero, suc, ◌+◌, ◌/◌, ◌%◌, Bool, true, false, Option, none, some, List, [], ◌∷◌, ◌++◌, Text,
  codes, ◌===◌, ltb, if◌then◌else◌,
}
pub mod Words
pub mod Sources
mod Tests

pub record ContractVerifier : Type 0 where
  pub chain_id : ℕ
  pub api_key : Text

-- The constructor: an undefined key counts as an empty one.
unfoldable pub new_contract_verifier : ℕ → Option Text → ContractVerifier
new_contract_verifier chain_id none = record { chain_id = chain_id; api_key = [] }
new_contract_verifier chain_id (some key) = record { chain_id = chain_id; api_key = key }

abbrev transparent_upgradeable_proxy : Text
transparent_upgradeable_proxy =
    codes
      "node_modules/@openzeppelin/contracts/proxy/transparent/TransparentUpgradeableProxy.sol:TransparentUpgradeableProxy"

abbrev proxy_admin_source : Text
proxy_admin_source =
    codes "node_modules/@openzeppelin/contracts/proxy/transparent/ProxyAdmin.sol:ProxyAdmin"

abbrev executor_source : Text
executor_source =
    codes "node_modules/@offchainlabs/upgrade-executor/src/UpgradeExecutor.sol:UpgradeExecutor"

unfoldable pub contract_to_source : List (Text × Text)
contract_to_source =
    (codes "l1TokenBridgeCreatorProxyAdmin", proxy_admin_source)
    ∷ (
      codes "l1TokenBridgeCreatorLogic",
      codes
          "contracts/tokenbridge/ethereum/L1AtomicTokenBridgeCreator.sol:L1AtomicTokenBridgeCreator",
    )
    ∷ (codes "l1TokenBridgeCreatorProxy", transparent_upgradeable_proxy)
    ∷ (
      codes "retryableSenderLogic",
      codes
          "contracts/tokenbridge/ethereum/L1TokenBridgeRetryableSender.sol:L1TokenBridgeRetryableSender",
    )
    ∷ (codes "retryableSenderProxy", transparent_upgradeable_proxy)
    ∷ (
      codes "routerTemplate",
      codes "contracts/tokenbridge/ethereum/gateway/L1GatewayRouter.sol:L1GatewayRouter",
    )
    ∷ (
      codes "standardGatewayTemplate",
      codes "contracts/tokenbridge/ethereum/gateway/L1ERC20Gateway.sol:L1ERC20Gateway",
    )
    ∷ (
      codes "customGatewayTemplate",
      codes "contracts/tokenbridge/ethereum/gateway/L1CustomGateway.sol:L1CustomGateway",
    )
    ∷ (
      codes "wethGatewayTemplate",
      codes "contracts/tokenbridge/ethereum/gateway/L1WethGateway.sol:L1WethGateway",
    )
    ∷ (
      codes "feeTokenBasedRouterTemplate",
      codes "contracts/tokenbridge/ethereum/gateway/L1OrbitGatewayRouter.sol:L1OrbitGatewayRouter",
    )
    ∷ (
      codes "feeTokenBasedStandardGatewayTemplate",
      codes "contracts/tokenbridge/ethereum/gateway/L1OrbitERC20Gateway.sol:L1OrbitERC20Gateway",
    )
    ∷ (
      codes "feeTokenBasedCustomGatewayTemplate",
      codes "contracts/tokenbridge/ethereum/gateway/L1OrbitCustomGateway.sol:L1OrbitCustomGateway",
    )
    ∷ (codes "upgradeExecutor", executor_source)
    ∷ (
      codes "l2TokenBridgeFactoryOnL1",
      codes
          "contracts/tokenbridge/arbitrum/L2AtomicTokenBridgeFactory.sol:L2AtomicTokenBridgeFactory",
    )
    ∷ (
      codes "l2GatewayRouterOnL1",
      codes "contracts/tokenbridge/arbitrum/gateway/L2GatewayRouter.sol:L2GatewayRouter",
    )
    ∷ (
      codes "l2StandardGatewayAddressOnL1",
      codes "contracts/tokenbridge/arbitrum/gateway/L2ERC20Gateway.sol:L2ERC20Gateway",
    )
    ∷ (
      codes "l2CustomGatewayAddressOnL1",
      codes "contracts/tokenbridge/arbitrum/gateway/L2CustomGateway.sol:L2CustomGateway",
    )
    ∷ (
      codes "l2WethGatewayAddressOnL1",
      codes "contracts/tokenbridge/arbitrum/gateway/L2WethGateway.sol:L2WethGateway",
    )
    ∷ (codes "l2WethAddressOnL1", codes "contracts/tokenbridge/libraries/aeWETH.sol:aeWETH")
    ∷ (codes "l2MulticallAddressOnL1", codes "contracts/rpc-utils/MulticallV2.sol:ArbMulticall2")
    ∷ (codes "l1Multicall", codes "contracts/rpc-utils/MulticallV2.sol:Multicall2")
    ∷ []

-- A property of an object that is looked up by its name.
unfoldable pub find : Text → List (Text × Text) → Option Text
find k [] = none
find k ((j, v) ∷ d) = elim (j === k) [ true ↦ some v | false ↦ find k d ]

unfoldable pub source_file : Text → Option Text
unfolding contract_to_source find
source_file name = find name contract_to_source

-- The decimal digits of a number, before those that are there already; a number has at most as many
-- digits as its successor counts.
unfoldable pub decimal_digits : ℕ → ℕ → Text → Text
decimal_digits zero n ds = ds
decimal_digits (suc k) n ds =
    let more = decimal_digits k (n / 10) ((n % 10 + b'0') ∷ ds) in
    if ltb n 10 then (n + b'0') ∷ ds else more

unfoldable pub decimal : ℕ → Text
unfolding decimal_digits
decimal n = decimal_digits (suc n) n []

unfoldable pub blank : Text → Text → Text
blank s t = s ++ b' ' ∷ t

-- An undefined source is written as such by the template.
unfoldable pub source_text : Option Text → Text
source_text none = codes "undefined"
source_text (some s) = s

unfoldable pub optimizations : Option ℕ → ℕ
optimizations none = 100
optimizations (some n) = n

-- The arguments, unless they are undefined or empty
unfoldable pub with_constructor_args : Option Text → Text → Text
unfolding blank
with_constructor_args none command = command
with_constructor_args (some []) command = command
with_constructor_args (some (c ∷ cs)) command =
    blank (blank command (codes "--constructor-args")) (c ∷ cs)

-- The command of `verifyWithAddress`
unfoldable pub verify_command : ContractVerifier → Text → Text → Option Text → Option ℕ → Text
unfolding decimal blank source_text optimizations with_constructor_args source_file
verify_command v name address args number =
    let chain =
      blank
        (blank (blank (blank (codes "forge") (codes "verify-contract")) (codes "--chain-id"))
          (decimal v.chain_id))
        (codes "--compiler-version 0.8.16") in
    let optimized =
      blank (blank chain (codes "--num-of-optimizations")) (decimal (optimizations number)) in
    let arguments = with_constructor_args args optimized in
    blank
      (blank (blank (blank arguments address) (source_text (source_file name)))
        (codes "--etherscan-api-key"))
      v.api_key
