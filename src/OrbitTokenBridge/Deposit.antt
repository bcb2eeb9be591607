-- ===== src/OrbitTokenBridge/Deposit.antt =====
-- `can deposit token via default gateway`, and the part that it shares with the deposit through the custom
-- gateway.
pub mod Moved
pub mod Traced
use arb_bridge_peripherals.Base.{
  ℕ, ◌+◌, ◌*◌, ◌^◌, Option, none, some, List, [], ◌∷◌, ◌==◌, leb, ltb, Text, pure, ask, throw_if,
  not, ◌>>=◌, ◌>>◌, if◌then◌else◌,
}
use arb_bridge_peripherals.Chain.Types.{
  Layer, parent, child, Getter, NumberGetter, Contract, Calldata,
}
use arb_bridge_peripherals.Chain.{Network, Run, read, read_number, deploy, send, estimate_all}
use arb_bridge_peripherals.DeploymentCheck.{expect}
use arb_bridge_peripherals.OrbitTokenBridge.{
  Setup, call, expect_l2_msg, fund_user, native_amount, native_balance,
}

-- The balances of the token and of the chain's currency, before a deposit.
pub record Balances : Type 0 where
  pub user_token : ℕ
  pub gateway_token : ℕ
  pub user_native : ℕ
  pub bridge_native : ℕ

-- `toNumber` of a BigNumber, which fails above `Number.MAX_SAFE_INTEGER`
unfoldable pub to_number : ℕ → Option ℕ
to_number n = if ltb n (2 ^ 53) then some n else none

-- The submission cost that the deposit's data have on a chain with the given fee token.
abbrev pub submission_cost : Option Text → ℕ → ℕ
submission_cost none cost = cost
submission_cost (some native) cost = 0

abbrev pub value_of_fee : Option Text → ℕ → ℕ
value_of_fee none fee = fee
value_of_fee (some native) fee = 0

abbrev pub encoded_fee : Option Text → ℕ → Option ℕ
encoded_fee none fee = none
encoded_fee (some native) fee = some fee

module _ (N : Network) (s : Setup) where
  unfoldable pub snapshot : Text → Text → Run N Balances
  snapshot token gateway = do
    user_token ← read_number N parent token (NumberGetter.balance_of s.user)
    gateway_token ← read_number N parent token (NumberGetter.balance_of gateway)
    user_native ← native_balance N s.native_token s.user
    bridge_native ← native_balance N s.native_token s.l2_network.eth_bridge.bridge
    pure (record {
      user_token = user_token;
      gateway_token = gateway_token;
      user_native = user_native;
      bridge_native = bridge_native;
    })

  -- The gateway may take the fee if it is paid in a token.
  unfoldable pub approve_fee : Option Text → Text → ℕ → Run N (Unit {0})
  unfolding call
  approve_fee none gateway fee = pure tt
  approve_fee (some native) gateway fee = do
    call N parent s.user native 0 (Calldata.approve gateway fee)
    pure tt

  -- `outboundTransferCustomRefund` and the wait for its ticket; `cost` is the submission cost of a
  -- chain that pays in ETH.
  unfoldable pub outbound_transfer : Text → ℕ → ℕ → ℕ → ℕ → ℕ → Run N (Unit {0})
  unfolding call expect_l2_msg
  outbound_transfer token amount gas_limit max_fee_per_gas cost fee = do
    tx ←
        call N parent s.user s.l2_network.token_bridge.l1_gateway_router
          (value_of_fee s.native_token fee)
          (Calldata.outbound_transfer_custom_refund token s.user s.user amount gas_limit
            max_fee_per_gas (submission_cost s.native_token cost) (encoded_fee s.native_token fee))
    expect_l2_msg N tx

  -- The user of a chain that pays in ETH has paid for the gas of the transactions as well.
  unfoldable pub expect_paid : Option Text → ℕ → ℕ → ℕ → Run N (Unit {0})
  unfolding to_number expect
  expect_paid none before after fee = do
    n ← ask (λ _. to_number fee)
    expect N (leb (after + n) before)
  expect_paid (some native) before after fee = expect N (before == after + fee)

  -- What has changed since the balances were read.
  unfoldable pub expect_deposited : Text → Text → Balances → ℕ → ℕ → Run N (Unit {0})
  unfolding expect_paid expect
  expect_deposited token gateway before amount fee = do
    l2_token ←
        read N parent s.l2_network.token_bridge.l1_gateway_router
          (Getter.calculate_l2_token_address token)
    received ← read_number N child l2_token (NumberGetter.balance_of s.user)
    expect N (received == amount)
    user_token ← read_number N parent token (NumberGetter.balance_of s.user)
    expect N (before.user_token == user_token + amount)
    gateway_token ← read_number N parent token (NumberGetter.balance_of gateway)
    expect N (gateway_token == before.gateway_token + amount)
    user_native ← native_balance N s.native_token s.user
    expect_paid s.native_token before.user_native user_native fee
    bridge_native ← native_balance N s.native_token s.l2_network.eth_bridge.bridge
    expect N (bridge_native == before.bridge_native + fee)

  -- The deposit itself, from the approval of the token on.
  unfoldable pub deposit_token : Text → ℕ → Run N (Unit {0})
  unfolding snapshot approve_fee outbound_transfer expect_deposited call
  deposit_token token amount = do
    let gateway = s.l2_network.token_bridge.l1_erc20_gateway
    before ← snapshot token gateway
    call N parent s.user token 0 (Calldata.approve gateway amount)
    outbound ← read N parent gateway (Getter.outbound_calldata token s.user s.user amount)
    params ← estimate_all N (record {
      from = s.user;
      to = s.user;
      l2_call_value = 0;
      excess_fee_refund_address = s.user;
      call_value_refund_address = s.user;
      calldata = Calldata.encoded outbound;
    })
    let gas_limit = params.gas_limit * 60
    fee ← native_amount N s.native_token (gas_limit * params.max_fee_per_gas * 2)
    approve_fee s.native_token gateway fee
    outbound_transfer token amount gas_limit params.max_fee_per_gas 584000000000 fee
    expect_deposited token gateway before amount fee

  unfoldable pub default_gateway_test : Run N (Unit {0})
  unfolding deposit_token call
  default_gateway_test = do
    fund_user N s
    token ← deploy N parent s.user Contract.test_erc20
    call N parent s.user token 0 Calldata.mint
    deposit_token token 120
