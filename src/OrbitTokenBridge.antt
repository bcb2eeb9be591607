-- ===== src/OrbitTokenBridge.antt =====
-- The test of a token bridge in the local environment, test-e2e/orbitTokenBridge.ts: its preparation and
-- its helpers (here), the deposits (Deposit, Custom), and the change from bridged to native USDC (Usdc).
-- A wallet has the same address on both chains, since it has the same key there. An expectation on the
-- difference of two balances is written as one on a sum, so that it may be negative.
pub mod Deposit
pub mod Custom
pub mod Usdc
pub mod Suite
pub mod Steps
mod Tests
use arb_bridge_peripherals.Base.{
  ℕ, ◌+◌, ◌*◌, ◌/◌, ◌^◌, zero, suc, Bool, not, Option, none, some, List, [], ◌∷◌, ◌===◌,
  same_address, Text, codes, pure, ask, when, ◌>>=◌, ◌>>◌, if◌then◌else◌,
}
use arb_bridge_peripherals.Amount.{get_scaled_amount}
use arb_bridge_peripherals.Chain.NetworkTypes.{L2Network}
use arb_bridge_peripherals.Chain.Types.{
  Layer, parent, child, Getter, NumberGetter, Contract, Calldata,
}
use arb_bridge_peripherals.Chain.{
  Network, Run, read, read_number, send, wait_for_status, wait_for_deposit,
}
use arb_bridge_peripherals.Chain.FeeToken.{address_zero, get_fee_token}
use arb_bridge_peripherals.DeploymentCheck.{expect}
use arb_bridge_peripherals.LocalDeployment.{Containers, setup_token_bridge_in_local_env}
use arb_bridge_peripherals.TokenBridge.Create.{is_redeemed}
use arb_bridge_peripherals.Usdc.Env.{Env}

-- The hashes that are the deployer's and the user's keys.
pub record Keys : Type 0 where
  pub deployer_key : Text
  pub user_key : Text

unfoldable pub test_dev_key : Text
test_dev_key = codes "0xb6b15c8cb491557369f3c7d2c287b053eb229daa9c22138887752191c9520659"

-- What the tests share: the addresses of the wallets, the network, and the token of a chain that pays
-- its fees in a token.
pub record Setup : Type 0 where
  pub deployer : Text
  pub user : Text
  pub l2_network : L2Network
  pub native_token : Option Text

-- `ethers.utils.parseEther`
abbrev pub ether : ℕ → ℕ
ether n = n * 10 ^ 18

unfoldable pub native_token_of : Text → Option Text
native_token_of a = if a === address_zero then none else some a

-- A router, gateway or token that is read from the network's description is written out at each use.
module _ (N : Network) where
  unfoldable pub call : Layer → Text → Text → ℕ → Calldata → Run N Text
  call l from to value calldata =
      send N l from (record { to = to; value = value; calldata = calldata })

  -- A wallet gets ETH on both chains from another.
  unfoldable pub fund_both : Text → Text → ℕ → Run N (Unit {0})
  unfolding call
  fund_both from to amount = do
    call parent from to amount Calldata.no_calldata
    call child from to amount Calldata.no_calldata
    pure tt

  -- A tenth of the deployer's tokens goes to the user.
  unfoldable pub share_native_token : Text → Text → Text → Run N (Unit {0})
  unfolding call
  share_native_token native deployer user = do
    supply ← read_number N parent native (NumberGetter.balance_of deployer)
    call parent deployer native 0 (Calldata.transfer user (supply / 10))
    pure tt

  -- The hook that runs before the tests.
  unfoldable pub before : Containers → Env → Keys → Run N Setup
  unfolding fund_both share_native_token native_token_of
  before containers env keys = do
    dev ← ask (λ _. N.wallet_address test_dev_key)
    deployer ← ask (λ _. N.wallet_address keys.deployer_key)
    fund_both dev deployer (ether 20)
    setup ← setup_token_bridge_in_local_env N containers env
    user ← ask (λ _. N.wallet_address keys.user_key)
    fund_both deployer user (ether 10)
    fee_token ← get_fee_token N setup.l2_network.eth_bridge.inbox
    elim (native_token_of fee_token) [
      | none ↦ pure tt
      | some native ↦ share_native_token native deployer user
    ]
    pure (record {
      deployer = deployer;
      user = user;
      l2_network = setup.l2_network;
      native_token = native_token_of fee_token;
    })

  -- `depositNativeToL2`
  unfoldable pub deposit_native_to_l2 : Setup → Text → Run N (Unit {0})
  unfolding call
  deposit_native_to_l2 s native = do
    decimals ← read_number N parent native NumberGetter.decimals
    let amount = 2 * 10 ^ decimals
    call parent s.user native 0 (Calldata.approve s.l2_network.eth_bridge.inbox amount)
    tx ← call parent s.user s.l2_network.eth_bridge.inbox 0 (Calldata.deposit_erc20 amount)
    wait_for_deposit N tx

  -- `messages[0]` of a transaction
  unfoldable pub first_message : Text → Run N (Unit {0})
  first_message tx = ask (λ w. elim (N.message_count tx w.chain) [
    | none ↦ none
    | some count ↦ elim count [ zero ↦ none | suc n ↦ some tt ]
  ])

  -- `waitOnL2Msg`
  unfoldable pub expect_l2_msg : Text → Run N (Unit {0})
  unfolding first_message expect
  expect_l2_msg tx = do
    first_message tx
    status ← wait_for_status N tx 0
    expect N (is_redeemed status)

  -- The deployer gives the user 100 tokens to pay fees with.
  unfoldable pub fund_user : Setup → Run N (Unit {0})
  unfolding call
  fund_user s = elim s.native_token [
    | none ↦ pure tt
    | some native ↦ do
      decimals ← read_number N parent native NumberGetter.decimals
      call parent s.deployer native 0 (Calldata.transfer s.user (100 * 10 ^ decimals))
      pure tt
  ]

  -- A fee in the chain's currency: a token's amount is scaled to its decimals.
  unfoldable pub native_amount : Option Text → ℕ → Run N ℕ
  native_amount none amount = pure amount
  native_amount (some native) amount =
      get_scaled_amount (λ t w. N.read_number parent t NumberGetter.decimals w.chain) native amount

  unfoldable pub native_balance : Option Text → Text → Run N ℕ
  native_balance none account = read_number N parent account NumberGetter.balance
  native_balance (some native) account =
      read_number N parent native (NumberGetter.balance_of account)

  -- `should have deployed token bridge contracts`
  unfoldable pub deployed_test : Setup → Run N (Unit {0})
  unfolding expect
  deployed_test s = do
    gateway ← read N parent s.l2_network.token_bridge.l1_gateway_router Getter.default_gateway
    expect N (same_address gateway s.l2_network.token_bridge.l1_erc20_gateway)
