-- ===== src/Verifier/Sources.antt =====
-- The names under which the deployment of the creator submits its contracts.
use arb_bridge_peripherals.Base.{
  ◌≡◌, refl, Bool, true, false, Option, none, some, List, [], ◌∷◌, Text, codes, any, ◌===◌, All, ℕ,
  Moves, Moves-for_each_known, All-map, moves_rules, IsPreorder,
}
use arb_bridge_peripherals.Chain.{Network, World, deploy, send}
use arb_bridge_peripherals.Chain.Types.{
  parent, Contract, Tx, Event, submitted, L1Templates, L2Templates,
}
use arb_bridge_peripherals.Chain.Growth.{
  Grows, Grows-preorder, deploy-Grows, send-Grows, submit-Grows,
}
use arb_bridge_peripherals.TokenBridge.Templates.{
  deploy_initialized, deploy_l1_templates, deploy_l2_templates,
}
use arb_bridge_peripherals.TokenBridge.Creator.Verification.{
  Deployed, creator_contracts, submit_all,
}
use arb_bridge_peripherals.TokenBridge.Creator.{
  CreatorContracts, deploy_creator, deploy_l1_token_bridge_creator,
}
use arb_bridge_peripherals.Verifier.{source_file}

-- A submission's name has a source in the verifier's table.
abbrev pub IsSourced : Event → Type 0
IsSourced (submitted name a args) = (s : Text) × (source_file (codes name) ≡ some s)
IsSourced _ = Unit

abbrev has_no_source : Deployed → Bool
has_no_source c = elim (source_file (codes c.name)) [ none ↦ true | some s ↦ false ]

abbrev HasSource : Deployed → Type 0
HasSource c = (s : Text) × (source_file (codes c.name) ≡ some s)

creator_contracts-has_source :
    (proxy_admin logic creator sender_logic sender multicall : Text) (l1 : L1Templates)
    (l2 : L2Templates)
    → any has_no_source
        (creator_contracts proxy_admin logic creator sender_logic sender l1 l2 multicall)
      ≡ false
unfolding creator_contracts source_file ◌===◌
creator_contracts-has_source proxy_admin logic creator sender_logic sender multicall l1 l2 = refl

has_no_source-HasSource : (cs : List Deployed) → any has_no_source cs ≡ false → All HasSource cs
has_no_source-HasSource [] h = tt
has_no_source-HasSource (c ∷ cs) h =
    at (source_file (codes c.name)) refl h (λ h'. has_no_source-HasSource cs h')
  where
    at :
        (o : Option Text)
        → source_file (codes c.name) ≡ o
        → (elim (elim o as (λ _. Bool) [ none ↦ true | some s ↦ false ]) as (λ _. Bool) [
          | true ↦ true
          | false ↦ any has_no_source cs
        ])
          ≡ false
        → (any has_no_source cs ≡ false → All HasSource cs)
        → HasSource c × All HasSource cs
    at none e h k = cc
    at (some s) e h k = ((s, e), k h)

module _ (N : Network) where
  abbrev Sourced : World N → World N → Type 0
  Sourced = Grows N IsSourced

  Sourced-preorder : IsPreorder Sourced
  Sourced-preorder = Grows-preorder N IsSourced

  deploy-Sourced : (from : Text) (c : Contract) → Moves Sourced (deploy N parent from c)
  deploy-Sourced from c = deploy-Grows N IsSourced parent from c (λ a. tt)

  send-Sourced : (from : Text) (tx : Tx) → Moves Sourced (send N parent from tx)
  send-Sourced from tx = send-Grows N IsSourced parent from tx tt

  submit_all-Sourced : (cs : List Deployed) → All HasSource cs → Moves Sourced (submit_all N cs)
  unfolding submit_all
  submit_all-Sourced cs h =
      Moves-for_each_known Sourced-preorder _ cs
        (All-map cs (λ c k. submit-Grows N IsSourced c.name c.address c.constructor_args k) h)

  module _ (deployer : Text) where
    initialized-Sourced :
        (c : Contract) (args : List Text) → Moves Sourced (deploy_initialized N deployer c args)
    unfolding deploy_initialized
    initialized-Sourced c args =
        search (moves_rules, Sourced-preorder, deploy-Sourced, send-Sourced) depth 20

    l1_templates-Sourced : Moves Sourced (deploy_l1_templates N deployer)
    unfolding deploy_l1_templates
    l1_templates-Sourced =
        search (moves_rules, Sourced-preorder, deploy-Sourced, initialized-Sourced) depth 30

    l2_templates-Sourced : (m : Text) → Moves Sourced (deploy_l2_templates N deployer m)
    unfolding deploy_l2_templates
    l2_templates-Sourced m =
        search (moves_rules, Sourced-preorder, deploy-Sourced, initialized-Sourced) depth 30

    creator-Sourced : Moves Sourced (deploy_creator N deployer)
    unfolding deploy_creator
    creator-Sourced = search (moves_rules, Sourced-preorder, deploy-Sourced, send-Sourced) depth 30

    submitted-Sourced :
        (c : CreatorContracts) (l1 : L1Templates) (l2 : L2Templates) (m : Text)
        → Moves Sourced (
            submit_all N
              (creator_contracts c.proxy_admin c.logic c.creator c.sender_logic c.sender l1 l2 m))
    submitted-Sourced c l1 l2 m = submit_all-Sourced _ (
        has_no_source-HasSource _ (
          creator_contracts-has_source c.proxy_admin c.logic c.creator c.sender_logic c.sender m l1
            l2))

    -- However it ends, the deployment of the creator has only added to the log, and every contract that
    -- it has submitted for verification in these events has a name with a source in the verifier's table.
    pub deploy_l1_token_bridge_creator-Sourced :
        (l1_weth : Text) (gas_limit : ℕ) (verify : Bool) (w : World N)
        → Grows N IsSourced w
            (deploy_l1_token_bridge_creator N deployer l1_weth gas_limit verify w).1
    unfolding deploy_l1_token_bridge_creator
    deploy_l1_token_bridge_creator-Sourced l1_weth gas_limit verify w = m.moves w
      where
        m : Moves Sourced (deploy_l1_token_bridge_creator N deployer l1_weth gas_limit verify)
        m =
            search
              (
                moves_rules, Sourced-preorder, deploy-Sourced, send-Sourced, creator-Sourced,
                l1_templates-Sourced, l2_templates-Sourced, submitted-Sourced,
              )
              depth 40
