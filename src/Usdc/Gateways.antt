-- ===== src/Usdc/Gateways.antt =====
-- `_deployL1UsdcGateway`, `_deployL2UsdcGateway` and `_initializeGateways`.
pub mod Agreement
use arb_bridge_peripherals.Base.{
  Bool, not, List, [], ◌∷◌, ◌===◌, Text, codes, pure, throw_if, any_run, if◌then◌else◌, ◌>>=◌, ◌>>◌,
}
use arb_bridge_peripherals.Chain.Types.{Layer, parent, child, Getter, Contract, Calldata, Tx}
use arb_bridge_peripherals.Chain.{Network, Run, deploy, send, differs}
use arb_bridge_peripherals.Chain.FeeToken.{address_zero, get_fee_token}
use arb_bridge_peripherals.Usdc.Env.{Settings}

module _ (N : Network) where
  unfoldable pub deploy_l1_usdc_gateway : Text → Text → Text → Run N Text
  deploy_l1_usdc_gateway deployer proxy_admin inbox = do
    fee_token ← get_fee_token N inbox
    logic ← deploy N parent deployer (
        if not (fee_token === address_zero)
        then Contract.l1_orbit_usdc_gateway
        else Contract.l1_usdc_gateway)
    deploy N parent deployer (Contract.transparent_upgradeable_proxy logic proxy_admin (codes "0x"))

  unfoldable pub deploy_l2_usdc_gateway : Text → Text → Run N Text
  deploy_l2_usdc_gateway deployer proxy_admin = do
    logic ← deploy N child deployer Contract.l2_usdc_gateway
    deploy N child deployer (Contract.transparent_upgradeable_proxy logic proxy_admin (codes "0x"))

  unfoldable pub l1_gateway_differs : Text → Text → Text → Text → Text → Settings → Run N Bool
  l1_gateway_differs l1_gateway l2_gateway inbox l2_usdc owner s = any_run (
      differs N parent l1_gateway Getter.router s.l1_router
      ∷ differs N parent l1_gateway Getter.inbox inbox
      ∷ differs N parent l1_gateway Getter.l1_usdc s.l1_usdc
      ∷ differs N parent l1_gateway Getter.l2_usdc l2_usdc
      ∷ differs N parent l1_gateway Getter.owner owner
      ∷ differs N parent l1_gateway Getter.counterpart_gateway l2_gateway
      ∷ [])

  unfoldable pub l2_gateway_differs : Text → Text → Text → Text → Settings → Run N Bool
  l2_gateway_differs l1_gateway l2_gateway l2_usdc owner s = any_run (
      differs N child l2_gateway Getter.counterpart_gateway l1_gateway
      ∷ differs N child l2_gateway Getter.router s.l2_router
      ∷ differs N child l2_gateway Getter.l1_usdc s.l1_usdc
      ∷ differs N child l2_gateway Getter.l2_usdc l2_usdc
      ∷ differs N child l2_gateway Getter.owner owner
      ∷ [])

  -- The gateways, the inbox, the child chain's token, and the deployers of the parent and the child.
  unfoldable pub initialize_gateways :
      Settings → Text → Text → Text → Text → Text → Text → Run N (Unit {0})
  initialize_gateways s l1_gateway l2_gateway inbox l2_usdc deployer_l1 deployer_l2 = do
    send N parent deployer_l1 (record {
      to = l1_gateway;
      value = 0;
      calldata =
          Calldata.initialize
            (l2_gateway ∷ s.l1_router ∷ inbox ∷ s.l1_usdc ∷ l2_usdc ∷ deployer_l1 ∷ []);
    })
    send N child deployer_l2 (record {
      to = l2_gateway;
      value = 0;
      calldata =
          Calldata.initialize (l1_gateway ∷ s.l2_router ∷ s.l1_usdc ∷ l2_usdc ∷ deployer_l2 ∷ []);
    })
    l1_wrong ← l1_gateway_differs l1_gateway l2_gateway inbox l2_usdc deployer_l1 s
    throw_if l1_wrong "L1 USDC gateway initialization failed"
    l2_wrong ← l2_gateway_differs l1_gateway l2_gateway l2_usdc deployer_l2 s
    throw_if l2_wrong "L2 USDC gateway initialization failed"
