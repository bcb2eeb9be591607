-- ===== src/Usdc/Token/Scope.antt =====
-- Which chain `_deployBridgedUsdc` works on, and for whom.
use arb_bridge_peripherals.Base.{◌≡◌, refl, IsPreorder, Text, Moves, moves_rules}
use arb_bridge_peripherals.Chain.Types.{
  child, Calldata, Contract, Tx, Event, deployed, sent, wrote, submitted, registered, saved,
}
use arb_bridge_peripherals.Chain.{Network, World, deploy, send}
use arb_bridge_peripherals.Chain.Growth.{Grows, Grows-preorder, deploy-Grows, send-Grows}
use arb_bridge_peripherals.Usdc.Token.{
  TokenSetup, deploy_usdc_logic, deploy_usdc_proxy, call_token, initialize_token, token_differs,
  deploy_bridged_usdc,
}

-- A deployment on the child chain, or a transaction there from the account.
abbrev pub IsWork : Text → Event → Type 0
IsWork account (deployed l c a) = l ≡ child
IsWork account (sent l from tx) = (l ≡ child) × (from ≡ account)
IsWork account (wrote txs) = ⊥
IsWork account (submitted name a args) = ⊥
IsWork account (registered l1 l2) = ⊥
IsWork account (saved f) = ⊥

-- The log grows, by such events alone.
abbrev pub Works : (N : Network) → Text → World N → World N → Type 0
Works N account = Grows N (IsWork account)

module _ (N : Network) (deployer : Text) where
  Works-preorder : IsPreorder (Works N deployer)
  Works-preorder = Grows-preorder N (IsWork deployer)

  deploy-Works : (c : Contract) → Moves (Works N deployer) (deploy N child deployer c)
  deploy-Works c = deploy-Grows N (IsWork deployer) child deployer c (λ a. refl)

  send-Works : (tx : Tx) → Moves (Works N deployer) (send N child deployer tx)
  send-Works tx = send-Grows N (IsWork deployer) child deployer tx (refl, refl)

  logic-Works : (bytecode : Text) → Moves (Works N deployer) (deploy_usdc_logic N bytecode deployer)
  unfolding deploy_usdc_logic
  logic-Works bytecode = search (moves_rules, Works-preorder, deploy-Works) depth 20

  proxy-Works :
      (logic admin : Text) → Moves (Works N deployer) (deploy_usdc_proxy N deployer logic admin)
  unfolding deploy_usdc_proxy
  proxy-Works logic admin = search (moves_rules, Works-preorder, deploy-Works, send-Works) depth 20

  call-Works :
      (token : Text) (c : Calldata) → Moves (Works N deployer) (call_token N deployer token c)
  unfolding call_token
  call-Works token c = search (moves_rules, Works-preorder, send-Works) depth 20

  initialize-Works :
      (token : Text) (s : TokenSetup)
      → Moves (Works N deployer) (initialize_token N deployer token s)
  unfolding initialize_token
  initialize-Works token s = search (moves_rules, Works-preorder, call-Works) depth 20

  differs-Works :
      (token : Text) (s : TokenSetup) → Moves (Works N deployer) (token_differs N token s)
  unfolding token_differs
  differs-Works token s = search (moves_rules, Works-preorder) depth 40

  -- However it ends, the deployment of the bridged token has done nothing but deployments on the child
  -- chain and transactions there from the deployer, each of them logged after what was logged before.
  pub deploy_bridged_usdc-Works :
      (bytecode proxy_admin : Text) (w : World N)
      → Works N deployer w (deploy_bridged_usdc N bytecode deployer proxy_admin w).1
  unfolding deploy_bridged_usdc
  deploy_bridged_usdc-Works bytecode proxy_admin w = m.moves w
    where
      m : Moves (Works N deployer) (deploy_bridged_usdc N bytecode deployer proxy_admin)
      m =
          search
            (
              moves_rules, Works-preorder, deploy-Works, logic-Works, proxy-Works, initialize-Works,
              differs-Works,
            )
            depth 30
