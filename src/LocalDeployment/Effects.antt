-- ===== src/LocalDeployment/Effects.antt =====
-- Which steps of the local deployment work on the parent chain alone.
use arb_bridge_peripherals.Base.{
  ℕ, zero, suc, ◌+◌, false, Moves, moves_rules, Moves-pure, Moves-bind, Text,
}
use arb_bridge_peripherals.Amount.{get_scaled_amount}
use arb_bridge_peripherals.Chain.{Network}
use arb_bridge_peripherals.Chain.FeeToken.{get_fee_token}
use arb_bridge_peripherals.Chain.OnParent.{
  OnParent, OnParent-preorder, StaysLocal-OnParent, random_address-OnParent, deploy-OnParent,
  send-OnParent, wait_for_status-OnParent,
}
use arb_bridge_peripherals.TokenBridge.Gas.{
  TicketFees, get_estimate_for_deploying_factory, random_addresses,
}
use arb_bridge_peripherals.TokenBridge.Create.{
  Deployment, estimate_tickets, approve_fees, wait_all, await_tickets, fetch_deployment,
  pay_and_create, create_token_bridge,
}
use arb_bridge_peripherals.TokenBridge.Creator.{deploy_l1_token_bridge_creator}
use arb_bridge_peripherals.TokenBridge.Creator.Scope.{deploy_l1_token_bridge_creator-StaysLocal}
use arb_bridge_peripherals.TokenBridge.Register.{check_routers, register_gateways}
use arb_bridge_peripherals.LocalDeployment.{Containers, parent_weth, register_weth}
use arb_bridge_peripherals.Usdc.Env.{Env}

module _ (N : Network) (containers : Containers) where
  pub estimate-OnParent : (a : Text) → Moves (OnParent N) (get_estimate_for_deploying_factory N a)
  unfolding get_estimate_for_deploying_factory
  estimate-OnParent a = search (moves_rules, OnParent-preorder, random_address-OnParent) depth 10

  pub creator-OnParent :
      (deployer weth : Text) (gas_limit : ℕ)
      → Moves (OnParent N) (deploy_l1_token_bridge_creator N deployer weth gas_limit false)
  creator-OnParent deployer weth gas_limit =
      StaysLocal-OnParent N deployer _
        (deploy_l1_token_bridge_creator-StaysLocal N deployer weth gas_limit false)

  random_addresses-OnParent : (n : ℕ) → Moves (OnParent N) (random_addresses N n)
  unfolding random_addresses
  random_addresses-OnParent zero = Moves-pure (OnParent-preorder N) _
  random_addresses-OnParent (suc n) =
      Moves-bind (OnParent-preorder N) _ _ (random_address-OnParent N) λ a.
        Moves-bind (OnParent-preorder N) _ _ (random_addresses-OnParent n)
          λ rest. Moves-pure (OnParent-preorder N) _

  wait_all-OnParent : (tx : Text) (i n : ℕ) → Moves (OnParent N) (wait_all N tx i n)
  unfolding wait_all
  wait_all-OnParent tx i zero = Moves-pure (OnParent-preorder N) _
  wait_all-OnParent tx i (suc n) =
      Moves-bind (OnParent-preorder N) _ _ (wait_for_status-OnParent N tx i) λ status.
        Moves-bind (OnParent-preorder N) _ _ (wait_all-OnParent tx (i + 1) n)
          λ rest. Moves-pure (OnParent-preorder N) _

  approve_fees-OnParent :
      (a b c : Text) (fees : TicketFees) → Moves (OnParent N) (approve_fees N a b c fees)
  unfolding approve_fees get_scaled_amount
  approve_fees-OnParent a b c fees = search (moves_rules, OnParent-preorder, send-OnParent) depth 20

  pub create_token_bridge-OnParent :
      (signer creator rollup owner : Text)
      → Moves (OnParent N) (create_token_bridge N signer creator rollup owner)
  unfolding create_token_bridge estimate_tickets pay_and_create await_tickets fetch_deployment
      get_fee_token
  create_token_bridge-OnParent signer creator rollup owner =
      search
        (
          moves_rules, OnParent-preorder, send-OnParent, estimate-OnParent,
          random_addresses-OnParent, wait_all-OnParent, approve_fees-OnParent,
        )
        depth 40

  pub register_weth-OnParent :
      (owner rollup weth : Text) (d : Deployment)
      → Moves (OnParent N) (register_weth N containers owner rollup weth d)
  unfolding register_weth register_gateways check_routers
  register_weth-OnParent owner rollup weth d =
      search (moves_rules, OnParent-preorder, send-OnParent, wait_for_status-OnParent) depth 30

  pub parent_weth-OnParent :
      (env : Env) (a : Text) → Moves (OnParent N) (parent_weth N containers env a)
  unfolding parent_weth
  parent_weth-OnParent env a = search (moves_rules, OnParent-preorder, deploy-OnParent) depth 10
