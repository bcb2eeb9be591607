-- ===== src/OrbitTokenBridge/Custom.antt =====
-- `can deposit token via custom gateway`: a token of its own on each chain, their registration, and a
-- deposit.
use arb_bridge_peripherals.Base.{
  ℕ, ◌+◌, ◌*◌, Option, none, some, [], ◌∷◌, ◌===◌, Text, pure, ◌>>=◌, ◌>>◌,
}
use arb_bridge_peripherals.Chain.Types.{parent, child, Getter, Contract, Calldata, GasParams}
use arb_bridge_peripherals.Chain.{Network, Run, read, deploy, estimate_all}
use arb_bridge_peripherals.DeploymentCheck.{expect}
use arb_bridge_peripherals.OrbitTokenBridge.{
  Setup, call, deposit_native_to_l2, fund_user, native_amount,
}
use arb_bridge_peripherals.OrbitTokenBridge.Deposit.{
  snapshot, approve_fee, outbound_transfer, expect_deposited,
}
use arb_bridge_peripherals.TokenBridge.Create.{await_tickets}

-- The token on the parent chain; that of a chain with a fee token is another contract.
abbrev pub custom_token_l1 : Option Text → Text → Text → Contract
custom_token_l1 none gateway router = Contract.test_custom_token_l1 gateway router
custom_token_l1 (some native) gateway router = Contract.test_orbit_custom_token_l1 gateway router

abbrev pub value_for_registration : Option Text → ℕ → ℕ
value_for_registration none value = value
value_for_registration (some native) value = 0

module _ (N : Network) (s : Setup) where
  -- The estimates of the two tickets of a registration: the gateway's and the router's.
  unfoldable pub estimate_registration : Text → Text → Run N (GasParams × GasParams)
  estimate_registration l1_token l2_token = do
    let bridge = s.l2_network.token_bridge
    router ← estimate_all N (record {
      from = bridge.l1_gateway_router;
      to = bridge.l2_gateway_router;
      l2_call_value = 0;
      excess_fee_refund_address = s.user;
      call_value_refund_address = s.user;
      calldata = Calldata.set_gateway (l1_token ∷ []) (bridge.l2_custom_gateway ∷ []);
    })
    gateway ← estimate_all N (record {
      from = bridge.l1_custom_gateway;
      to = bridge.l2_custom_gateway;
      l2_call_value = 0;
      excess_fee_refund_address = s.user;
      call_value_refund_address = s.user;
      calldata = Calldata.register_token_from_l1 (l1_token ∷ []) (l2_token ∷ []);
    })
    pure (gateway, router)

  unfoldable pub register_custom_token : Text → Text → Run N (Unit {0})
  unfolding call estimate_registration approve_fee native_amount
  register_custom_token l1_token l2_token = do
    params ← estimate_registration l1_token l2_token
    let gateway = params.0
    let router = params.1
    value_for_gateway ← native_amount N s.native_token gateway.deposit
    value_for_router ← native_amount N s.native_token router.deposit
    approve_fee N s s.native_token l1_token ((value_for_gateway + value_for_router) * 2)
    tx ←
        call N parent s.user l1_token
          (value_for_registration s.native_token (value_for_gateway + value_for_router))
          (Calldata.register_token_on_l2 l2_token gateway.max_submission_cost
            router.max_submission_cost (gateway.gas_limit * 2) (router.gas_limit * 2) 100000000
            value_for_gateway value_for_router s.user)
    await_tickets N tx

  unfoldable pub deposit_custom_token : Text → ℕ → Run N (Unit {0})
  unfolding call snapshot approve_fee native_amount outbound_transfer expect_deposited expect
  deposit_custom_token token amount = do
    let gateway = s.l2_network.token_bridge.l1_custom_gateway
    let gas_limit : ℕ = 1000000
    let max_fee_per_gas : ℕ = 300000000
    before ← snapshot N s token gateway
    call N parent s.user token 0 (Calldata.approve gateway amount)
    fee ← native_amount N s.native_token (gas_limit * max_fee_per_gas * 2)
    approve_fee N s s.native_token gateway fee
    outbound_transfer N s token amount gas_limit max_fee_per_gas 334400000000 fee
    used ← read N parent s.l2_network.token_bridge.l1_gateway_router (Getter.get_gateway token)
    expect N (used === gateway)
    expect_deposited N s token gateway before amount fee

  unfoldable pub custom_gateway_test : Run N (Unit {0})
  unfolding call register_custom_token deposit_custom_token
  custom_gateway_test = do
    let bridge = s.l2_network.token_bridge
    fund_user N s
    l1_token ←
        deploy N parent s.deployer
          (custom_token_l1 s.native_token bridge.l1_custom_gateway bridge.l1_gateway_router)
    call N parent s.user l1_token 0 Calldata.mint
    elim s.native_token [ none ↦ pure tt | some native ↦ deposit_native_to_l2 N s native ]
    l2_token ←
        deploy N child s.deployer (Contract.test_arb_custom_token bridge.l2_custom_gateway l1_token)
    register_custom_token l1_token l2_token
    deposit_custom_token l1_token 110
