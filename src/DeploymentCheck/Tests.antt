-- ===== src/DeploymentCheck/Tests.antt =====
-- A bridge whose contracts have the same addresses on both chains, of a chain with a fee token.
use arb_bridge_peripherals.Base.{
  ℕ, ◌≡◌, ◌≢◌, refl, ap, length, arith, Option, none, some, [], ◌∷◌, ◌++◌, Text, codes, ok,
  replicate, ◌===◌, if◌then◌else◌, same_address, effects,
}
use arb_bridge_peripherals.Alias.{apply_alias}
use arb_bridge_peripherals.Chain.{Network, World}
use arb_bridge_peripherals.Chain.Types.{parent, Getter}
use arb_bridge_peripherals.Chain.NetworkTypes.{L1Deployment, L2Deployment}
use arb_bridge_peripherals.Chain.FeeToken.{address_zero, get_fee_token}
use arb_bridge_peripherals.Chain.Small.{small_chain}
use arb_bridge_peripherals.DeploymentCheck.{is_using_fee_token}
use arb_bridge_peripherals.DeploymentCheck.Fees.{is_token, is_using_fee_token-get_fee_token}
use arb_bridge_peripherals.DeploymentCheck.Whole.{TestVars, token_bridge_test}
use arb_bridge_peripherals.DeploymentCheck.Sound.{Healthy, token_bridge_test-Healthy}

abbrev zero_address : Text
zero_address = b'0' ∷ b'x' ∷ replicate 40 b'0'

abbrev l1 : L1Deployment
l1 = record {
  router = codes "0x01";
  standard_gateway = codes "0x02";
  custom_gateway = codes "0x03";
  weth_gateway = zero_address;
  weth = zero_address;
}

abbrev l2 : L2Deployment
l2 = record {
  router = codes "0x01";
  standard_gateway = codes "0x02";
  custom_gateway = codes "0x03";
  weth_gateway = zero_address;
  weth = zero_address;
  proxy_admin = codes "0xad";
  beacon_proxy_factory = codes "0x0b";
  upgrade_executor = codes "0xee";
  multicall = codes "0x0c";
}

abbrev bridge_chain : Network
bridge_chain = record (small_chain (some (codes "0x0e"))) {
  read = λ l a g s. elim g as (λ _. Option Text) [
    | Getter.default_gateway ↦ some (codes "0x02")
    | Getter.inbox ↦ some (codes "0x10")
    | Getter.router ↦ some (if a === codes "0x01" then zero_address else codes "0x01")
    | Getter.counterpart_gateway ↦ some a
    | Getter.whitelist ↦ some zero_address
    | Getter.proxy_admin ↦ some (codes "0xAD")
    | Getter.owner ↦ some (codes "0xee")
    | Getter.storage_at slot ↦ some (codes "0x" ++ replicate 24 b'0' ++ codes "ad")
    | _ ↦ some (codes "0xa1")
  ];
  inbox_to_l1_deployment = λ c i s. some l1;
  inbox_to_l2_deployment = λ c i s. some l2;
}

abbrev vars : TestVars
vars = record {
  rollup_address = some (codes "0x0f");
  l1_token_bridge_creator = some (codes "0xcc");
  l1_retryable_sender = some (codes "0xA1");
  network_file = none;
}

abbrev before : World bridge_chain
before = record { chain = 0; draws = 0; log = [] }

test_passes : token_bridge_test bridge_chain vars before ≡ (ok tt, before)
unfolding token_bridge_test apply_alias address_zero same_address effects
test_passes = refl

token_bridge_test-Healthy_example : (before ≡ before) × Healthy before vars
token_bridge_test-Healthy_example = token_bridge_test-Healthy before vars before test_passes

has_no_zero_token :
    (bridge : Text)
    → bridge_chain.read parent (codes "0x10") Getter.bridge 0 ≡ some bridge
    → bridge_chain.read parent bridge Getter.native_token 0 ≢ some address_zero
unfolding address_zero
has_no_zero_token bridge e h = omega (arith, ap length_of h)
  where
    length_of : Option Text → ℕ
    length_of none = 0
    length_of (some t) = length t

is_using_fee_token-get_fee_token_example :
    (is_using_fee_token bridge_chain (codes "0x10") before).0
    ≡ is_token (get_fee_token bridge_chain (codes "0x10") before).0
is_using_fee_token-get_fee_token_example =
    is_using_fee_token-get_fee_token bridge_chain (codes "0x10") before has_no_zero_token
