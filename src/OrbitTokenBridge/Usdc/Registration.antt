-- ===== src/OrbitTokenBridge/Usdc/Registration.antt =====
-- The registration of the USDC gateway, and a deposit of USDC through it.
use arb_bridge_peripherals.Base.{
  ℕ, ◌+◌, ◌*◌, not, Option, none, some, [], ◌∷◌, ◌===◌, ◌==◌, Text, pure, ask, ◌>>=◌, ◌>>◌,
}
use arb_bridge_peripherals.Chain.Types.{parent, child, Getter, NumberGetter, Flag, Calldata}
use arb_bridge_peripherals.Chain.{Network, Run, read, read_number, read_flag}
use arb_bridge_peripherals.DeploymentCheck.{expect}
use arb_bridge_peripherals.LocalDeployment.{localhost_l3_owner_key}
use arb_bridge_peripherals.OrbitTokenBridge.{Setup, ether, call, expect_l2_msg, native_amount}
use arb_bridge_peripherals.Usdc.Main.{max_uint256}
use arb_bridge_peripherals.OrbitTokenBridge.Usdc.{UsdcContracts}

abbrev pub usdc_max_gas : ℕ
usdc_max_gas = 500000

abbrev pub usdc_gas_price_bid : ℕ
usdc_gas_price_bid = 200000000

-- The fee of a ticket on a chain with a fee token: the token and its amount.
abbrev pub TokenFee : Type 0
TokenFee = Text × ℕ

unfoldable pub token_fee : (N : Network) → Option Text → Run N (Option TokenFee)
token_fee N none = pure none
token_fee N (some native) = do
  fee ← native_amount N (some native) (usdc_max_gas * usdc_gas_price_bid)
  pure (some (native, fee))

module _ (N : Network) (s : Setup) (c : UsdcContracts) where
  -- The call of the executor that registers the gateway, and its value. With a fee token, the fee is
  -- prefunded in the inbox, and the gateway may take it from the rollup's owner.
  unfoldable pub registration : Option TokenFee → Text → Run N (ℕ × Calldata)
  unfolding call
  registration none rollup_owner = pure (
    usdc_max_gas * usdc_gas_price_bid + 257600000000,
    Calldata.set_gateways (c.l1_usdc ∷ []) (c.l1_gateway ∷ []) usdc_max_gas usdc_gas_price_bid
        257600000000,
  )
  registration (some (native, fee)) rollup_owner = do
    call N parent s.deployer native 0 (Calldata.transfer s.l2_network.eth_bridge.inbox fee)
    call N parent rollup_owner native 0 (Calldata.approve c.l1_gateway fee)
    pure (
      0,
      Calldata.set_gateways_with_fee (c.l1_usdc ∷ []) (c.l1_gateway ∷ []) usdc_max_gas
          usdc_gas_price_bid 0 fee,
    )

  unfoldable pub register_usdc_gateway : Option TokenFee → Run N (Unit {0})
  unfolding registration call expect_l2_msg
  register_usdc_gateway fee = do
    rollup_owner ← ask (λ _. N.wallet_address localhost_l3_owner_key)
    request ← registration fee rollup_owner
    executor ← read N parent s.l2_network.eth_bridge.rollup Getter.owner
    tx ←
        call N parent rollup_owner executor request.0
          (Calldata.execute_call s.l2_network.token_bridge.l1_gateway_router request.1)
    expect_l2_msg N tx

  unfoldable pub check_usdc_registration : Run N (Unit {0})
  unfolding expect
  check_usdc_registration = do
    l1 ← read N parent s.l2_network.token_bridge.l1_gateway_router (Getter.get_gateway c.l1_usdc)
    expect N (l1 === c.l1_gateway)
    l1_paused ← read_flag N parent c.l1_gateway Flag.deposits_paused
    expect N (not l1_paused)
    l2 ← read N child s.l2_network.token_bridge.l2_gateway_router (Getter.get_gateway c.l1_usdc)
    expect N (l2 === c.l2_gateway)
    l2_paused ← read_flag N child c.l2_gateway Flag.withdrawals_paused
    expect N (not l2_paused)

  -- The gateway of the child chain may mint, and the user gets USDC on the parent chain.
  unfoldable pub mint_usdc : Run N (Unit {0})
  unfolding call expect
  mint_usdc = do
    call N child s.deployer c.l2_usdc 0
        (Calldata.configure_minter_allowance c.l2_gateway max_uint256)
    minter ← read_flag N child c.l2_usdc (Flag.is_minter c.l2_gateway)
    expect N minter
    call N parent s.deployer c.l1_usdc 0
        (Calldata.configure_minter_allowance s.deployer (ether 1000))
    call N parent s.deployer c.l1_usdc 0 (Calldata.mint_to s.user (ether 10))
    pure tt

  -- The value of the deposit's transaction, its submission cost, and the fee in the token.
  unfoldable pub deposit_fee : Option TokenFee → Run N (ℕ × ℕ × Option ℕ)
  unfolding call
  deposit_fee none = pure (usdc_max_gas * usdc_gas_price_bid + 334400000000, 334400000000, none)
  deposit_fee (some (native, fee)) = do
    call N parent s.user native 0 (Calldata.approve c.l1_gateway fee)
    pure (0, 0, some fee)

  unfoldable pub deposit_usdc : Option TokenFee → ℕ → Run N (Unit {0})
  unfolding deposit_fee call expect_l2_msg expect
  deposit_usdc token_fee amount = do
    call N parent s.user c.l1_usdc 0 (Calldata.approve c.l1_gateway amount)
    fee ← deposit_fee token_fee
    tx ← call N parent s.user s.l2_network.token_bridge.l1_gateway_router fee.0 (
        Calldata.outbound_transfer_custom_refund c.l1_usdc s.user s.user amount usdc_max_gas
          usdc_gas_price_bid fee.1 fee.2)
    expect_l2_msg N tx
    received ← read_number N child c.l2_usdc (NumberGetter.balance_of s.user)
    expect N (received == amount)
    locked ← read_number N parent c.l1_usdc (NumberGetter.balance_of c.l1_gateway)
    expect N (locked == amount)
    supply ← read_number N child c.l2_usdc NumberGetter.total_supply
    expect N (supply == amount)
