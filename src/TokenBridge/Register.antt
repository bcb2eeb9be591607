-- ===== src/TokenBridge/Register.antt =====
-- `registerGateway` of scripts/atomicTokenBridgeDeployer.ts.
pub mod Counterparts
use arb_bridge_peripherals.Base.{
  ◌+◌, ◌*◌, not, List, ◌===◌, Text, codes, pure, exit, ask, throw_if, ◌>>=◌, ◌>>◌, if◌then◌else◌,
}
use arb_bridge_peripherals.Chain.Types.{parent, child, Getter, Calldata, Tx, GasParams}
use arb_bridge_peripherals.Chain.{Network, Run, read, send, wait_for_status}
use arb_bridge_peripherals.TokenBridge.Create.{is_redeemed}

-- `buildCall`, by the executor, the router, the tokens, the gateways and the gas parameters.
unfoldable pub build_call : Text → Text → List Text → List Text → GasParams → Tx
build_call upgrade_executor router tokens gateways p = record {
  to = upgrade_executor;
  value = p.gas_limit * p.max_fee_per_gas + p.max_submission_cost;
  calldata =
      Calldata.execute_call router
        (Calldata.set_gateways tokens gateways p.gas_limit p.max_fee_per_gas p.max_submission_cost);
}

module _ (N : Network) where
  -- Both routers have to be there, each with the other as its counterpart.
  unfoldable pub check_routers : Text → Run N (Unit {0})
  check_routers router = do
    l2_router ← read N parent router Getter.counterpart_gateway
    code ← read N child l2_router Getter.code
    throw_if (code === codes "0x") "L2GatewayRouter not yet deployed"
    l1_router ← read N child l2_router Getter.counterpart_gateway
    throw_if (not (l1_router === router)) "L2GatewayRouter not properly initialized"

  unfoldable pub register_gateways : Text → Text → Text → List Text → List Text → Run N (Unit {0})
  register_gateways executor upgrade_executor router tokens gateways = do
    check_routers router
    params ←
        ask (λ w. N.populate_params (build_call upgrade_executor router tokens gateways) w.chain)
    tx ← send N parent executor (build_call upgrade_executor router tokens gateways params)
    status ← wait_for_status N tx 0
    if is_redeemed status then pure tt else exit
