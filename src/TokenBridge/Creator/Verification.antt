-- ===== src/TokenBridge/Creator/Verification.antt =====
-- The contracts that `deployL1TokenBridgeCreator` submits for verification, in its order, with the
-- arguments of their constructors.
use arb_bridge_peripherals.Base.{String, List, [], ◌∷◌, Text, codes, for_each}
use arb_bridge_peripherals.Chain.Types.{L1Templates, L2Templates}
use arb_bridge_peripherals.Chain.{Network, Run, submit}

pub record Deployed : Type 0 where
  pub name : String
  pub address : Text
  pub constructor_args : List Text

abbrev plain : String → Text → Deployed
plain name address = record { name = name; address = address; constructor_args = [] }

unfoldable pub creator_contracts :
    Text → Text → Text → Text → Text → L1Templates → L2Templates → Text → List Deployed
creator_contracts proxy_admin logic creator sender_logic sender l1 l2 multicall =
    plain "l1TokenBridgeCreatorProxyAdmin" proxy_admin
    ∷ record {
      name = "l1TokenBridgeCreatorLogic";
      address = logic;
      constructor_args = l2.l2_multicall ∷ [];
    }
    ∷ record {
      name = "l1TokenBridgeCreatorProxy";
      address = creator;
      constructor_args = logic ∷ proxy_admin ∷ codes "0x" ∷ [];
    }
    ∷ plain "retryableSenderLogic" sender_logic
    ∷ record {
      name = "retryableSenderProxy";
      address = sender;
      constructor_args = sender_logic ∷ proxy_admin ∷ codes "0x" ∷ [];
    }
    ∷ plain "routerTemplate" l1.router_template
    ∷ plain "standardGatewayTemplate" l1.standard_gateway_template
    ∷ plain "customGatewayTemplate" l1.custom_gateway_template
    ∷ plain "wethGatewayTemplate" l1.weth_gateway_template
    ∷ plain "feeTokenBasedRouterTemplate" l1.fee_token_based_router_template
    ∷ plain "feeTokenBasedStandardGatewayTemplate" l1.fee_token_based_standard_gateway_template
    ∷ plain "feeTokenBasedCustomGatewayTemplate" l1.fee_token_based_custom_gateway_template
    ∷ plain "upgradeExecutor" l1.upgrade_executor
    ∷ plain "l2TokenBridgeFactoryOnL1" l2.l2_token_bridge_factory
    ∷ plain "l2GatewayRouterOnL1" l2.l2_gateway_router
    ∷ plain "l2StandardGatewayAddressOnL1" l2.l2_standard_gateway
    ∷ plain "l2CustomGatewayAddressOnL1" l2.l2_custom_gateway
    ∷ plain "l2WethGatewayAddressOnL1" l2.l2_weth_gateway
    ∷ plain "l2WethAddressOnL1" l2.l2_weth
    ∷ plain "l2MulticallAddressOnL1" l2.l2_multicall
    ∷ plain "l1Multicall" multicall
    ∷ []

module _ (N : Network) where
  unfoldable pub submit_all : List Deployed → Run N (Unit {0})
  submit_all contracts = for_each (λ c. submit N c.name c.address c.constructor_args) contracts
