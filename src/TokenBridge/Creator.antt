-- ===== src/TokenBridge/Creator.antt =====
-- `deployL1TokenBridgeCreator`: the creator and the retryable sender behind proxies, the templates, and
-- the submission of every contract for verification.
pub mod Verification
pub mod Scope
pub mod Typed
use arb_bridge_peripherals.Base.{ℕ, Bool, List, [], ◌∷◌, Text, codes, pure, ask, when, ◌>>=◌, ◌>>◌}
use arb_bridge_peripherals.Chain.Types.{parent, Contract, Calldata, Tx}
use arb_bridge_peripherals.Chain.{Network, World, Run, deploy, send}
use arb_bridge_peripherals.TokenBridge.Templates.{deploy_l1_templates, deploy_l2_templates}
use Verification.{Deployed, submit_all, creator_contracts}

-- The creator's own contracts.
pub record CreatorContracts : Type 0 where
  pub l2_multicall : Text
  pub proxy_admin : Text
  pub logic : Text
  pub creator : Text
  pub sender_logic : Text
  pub sender : Text

module _ (N : Network) where
  unfoldable pub deploy_creator : Text → Run N CreatorContracts
  deploy_creator deployer = do
    multicall ← deploy N parent deployer Contract.arb_multicall2
    proxy_admin ← deploy N parent deployer Contract.proxy_admin
    logic ← deploy N parent deployer Contract.l1_atomic_token_bridge_creator
    creator ←
        deploy N parent deployer
          (Contract.transparent_upgradeable_proxy logic proxy_admin (codes "0x"))
    sender_logic ← deploy N parent deployer Contract.l1_token_bridge_retryable_sender
    sender ←
        deploy N parent deployer
          (Contract.transparent_upgradeable_proxy sender_logic proxy_admin (codes "0x"))
    send N parent deployer
        (record { to = sender_logic; value = 0; calldata = Calldata.initialize [] })
    send N parent deployer
        (record { to = creator; value = 0; calldata = Calldata.initialize (sender ∷ []) })
    pure (record {
      l2_multicall = multicall;
      proxy_admin = proxy_admin;
      logic = logic;
      creator = creator;
      sender_logic = sender_logic;
      sender = sender;
    })

  -- Returns the addresses of the creator and of the retryable sender.
  unfoldable pub deploy_l1_token_bridge_creator : Text → Text → ℕ → Bool → Run N (Text × Text)
  deploy_l1_token_bridge_creator deployer l1_weth gas_limit verify_contracts = do
    c ← deploy_creator deployer
    l1 ← deploy_l1_templates N deployer
    l2 ← deploy_l2_templates N deployer c.l2_multicall
    multicall ← deploy N parent deployer Contract.multicall2
    send N parent deployer (record {
      to = c.creator;
      value = 0;
      calldata = Calldata.set_templates l1 l2 l1_weth multicall gas_limit;
    })
    when verify_contracts (do
      _ ← ask (λ w. N.chain_id parent w.chain)
      submit_all N (
          creator_contracts c.proxy_admin c.logic c.creator c.sender_logic c.sender l1 l2
            multicall))
    pure (c.creator, c.sender)
