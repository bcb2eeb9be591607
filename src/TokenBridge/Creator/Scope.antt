-- ===== src/TokenBridge/Creator/Scope.antt =====
-- Which chain `deployL1TokenBridgeCreator` works on, and for whom.
use arb_bridge_peripherals.Base.{ℕ, Bool, List, Text, Moves, moves_rules}
use arb_bridge_peripherals.Chain.Types.{parent, Contract}
use arb_bridge_peripherals.Chain.{Network, World}
use arb_bridge_peripherals.Chain.Scope.{
  StaysLocal, StaysLocal-preorder, deploy-StaysLocal, send-StaysLocal, submit-StaysLocal,
}
use arb_bridge_peripherals.TokenBridge.Templates.{
  deploy_initialized, deploy_l1_templates, deploy_l2_templates,
}
use arb_bridge_peripherals.TokenBridge.Creator.Verification.{Deployed, submit_all}
use arb_bridge_peripherals.TokenBridge.Creator.{deploy_creator, deploy_l1_token_bridge_creator}

module _ (N : Network) (deployer : Text) where
  initialized-StaysLocal :
      (c : Contract) (args : List Text)
      → Moves (StaysLocal N parent deployer) (deploy_initialized N deployer c args)
  unfolding deploy_initialized
  initialized-StaysLocal c args =
      search (moves_rules, StaysLocal-preorder, deploy-StaysLocal, send-StaysLocal) depth 20

  l1_templates-StaysLocal : Moves (StaysLocal N parent deployer) (deploy_l1_templates N deployer)
  unfolding deploy_l1_templates
  l1_templates-StaysLocal =
      search (moves_rules, StaysLocal-preorder, deploy-StaysLocal, initialized-StaysLocal) depth 30

  l2_templates-StaysLocal :
      (multicall : Text)
      → Moves (StaysLocal N parent deployer) (deploy_l2_templates N deployer multicall)
  unfolding deploy_l2_templates
  l2_templates-StaysLocal multicall =
      search (moves_rules, StaysLocal-preorder, deploy-StaysLocal, initialized-StaysLocal) depth 30

  creator-StaysLocal : Moves (StaysLocal N parent deployer) (deploy_creator N deployer)
  unfolding deploy_creator
  creator-StaysLocal =
      search (moves_rules, StaysLocal-preorder, deploy-StaysLocal, send-StaysLocal) depth 30

  submit_all-StaysLocal :
      (cs : List Deployed) → Moves (StaysLocal N parent deployer) (submit_all N cs)
  unfolding submit_all
  submit_all-StaysLocal cs = search (moves_rules, StaysLocal-preorder, submit-StaysLocal) depth 20

  -- However it ends, the deployment of the creator has done nothing but deployments on the parent chain,
  -- transactions there from the deployer, and submissions for verification, each of them logged after
  -- what was logged before.
  pub deploy_l1_token_bridge_creator-StaysLocal :
      (l1_weth : Text) (gas_limit : ℕ) (verify : Bool) (w : World N)
      → StaysLocal N parent deployer w
          (deploy_l1_token_bridge_creator N deployer l1_weth gas_limit verify w).1
  unfolding deploy_l1_token_bridge_creator
  deploy_l1_token_bridge_creator-StaysLocal l1_weth gas_limit verify w = m.moves w
    where
      m :
          Moves
            (StaysLocal N parent deployer)
            (deploy_l1_token_bridge_creator N deployer l1_weth gas_limit verify)
      m =
          search
            (
              moves_rules, StaysLocal-preorder, deploy-StaysLocal, send-StaysLocal,
              creator-StaysLocal, l1_templates-StaysLocal, l2_templates-StaysLocal,
              submit_all-StaysLocal,
            )
            depth 30
