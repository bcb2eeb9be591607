-- ===== src/TokenBridge/Creator/Typed/Parts.antt =====
-- The deployments of `deployL1TokenBridgeCreator`: each of its parts adds typed events only, and what it
-- returns is of the contracts' types.
use arb_bridge_peripherals.Base.{
  ◌≡◌, refl, inl, inr, List, [], ◌∷◌, some, Text, codes, length, Post-pure,
}
use arb_bridge_peripherals.Chain.Types.{parent, Contract, Calldata}
use arb_bridge_peripherals.Chain.{Network, World}
use arb_bridge_peripherals.Chain.Typed.{Fact, Has, initializer_arity, l1_facts, l2_facts}
use arb_bridge_peripherals.Chain.Typed.Steps.{
  start, Grows-refl, Adds, Adds-deploy, Adds-send, after, after_then,
}
use arb_bridge_peripherals.TokenBridge.Templates.{
  deploy_initialized, deploy_l1_templates, deploy_l2_templates,
}
use arb_bridge_peripherals.TokenBridge.Creator.{CreatorContracts, deploy_creator}

abbrev pub proxied : Text → Text → Contract
proxied logic admin = Contract.transparent_upgradeable_proxy logic admin (codes "0x")

-- The creator's own contracts with their types.
abbrev pub creator_facts : CreatorContracts → List Fact
creator_facts c =
    (proxied c.sender_logic c.proxy_admin, c.sender)
    ∷ (Contract.l1_token_bridge_retryable_sender, c.sender_logic)
    ∷ (proxied c.logic c.proxy_admin, c.creator)
    ∷ (Contract.l1_atomic_token_bridge_creator, c.logic)
    ∷ (Contract.proxy_admin, c.proxy_admin)
    ∷ (Contract.arb_multicall2, c.l2_multicall)
    ∷ []

module _ (N : Network) (deployer : Text) where
  pub initialized :
      (c : Contract) (args : List Text) (s : World N)
      → initializer_arity c ≡ some (length args)
      → Adds N parent (λ a. (c, a) ∷ []) (deploy_initialized N deployer c args) s
  unfolding deploy_initialized
  initialized c args s e =
      after N parent _ _ s (start N parent s) (Adds-deploy N parent deployer c s) λ a t known.
        after_then N parent _ _ t known
          (Adds-send N parent deployer
            (record { to = a; value = 0; calldata = Calldata.initialize args }) t c
            (inl known.facts.0) e)
          λ u known'. Post-pure a u known'

  pub l1_templates : (s : World N) → Adds N parent l1_facts (deploy_l1_templates N deployer) s
  unfolding deploy_l1_templates initializer_arity
  l1_templates s = after N parent _ _ s (start N parent s) (initialized _ _ s refl) λ _ t₁ k₁.
      after N parent _ _ t₁ k₁ (initialized _ _ t₁ refl) λ _ t₂ k₂.
        after N parent _ _ t₂ k₂ (initialized _ _ t₂ refl) λ _ t₃ k₃.
          after N parent _ _ t₃ k₃ (initialized _ _ t₃ refl) λ _ t₄ k₄.
            after N parent _ _ t₄ k₄ (initialized _ _ t₄ refl) λ _ t₅ k₅.
              after N parent _ _ t₅ k₅ (initialized _ _ t₅ refl) λ _ t₆ k₆.
                after N parent _ _ t₆ k₆ (initialized _ _ t₆ refl) λ _ t₇ k₇.
                  after N parent _ _ t₇ k₇ (Adds-deploy N parent deployer _ t₇)
                    λ _ t₈ k₈. Post-pure _ t₈ k₈

  pub l2_templates :
      (multicall : Text) (s : World N)
      → Has parent s.log (Contract.arb_multicall2, multicall)
      → Adds N parent l2_facts (deploy_l2_templates N deployer multicall) s
  unfolding deploy_l2_templates initializer_arity
  l2_templates multicall s h =
      after N parent _ _ s (record { grows = Grows-refl N parent s; facts = (h, tt) })
        (Adds-deploy N parent deployer Contract.l2_atomic_token_bridge_factory s)
        λ _ t₁ k₁. after N parent _ _ t₁ k₁ (initialized _ _ t₁ refl) λ _ t₂ k₂.
          after N parent _ _ t₂ k₂ (initialized _ _ t₂ refl) λ _ t₃ k₃.
            after N parent _ _ t₃ k₃ (initialized _ _ t₃ refl) λ _ t₄ k₄.
              after N parent _ _ t₄ k₄ (initialized _ _ t₄ refl) λ _ t₅ k₅.
                after N parent _ _ t₅ k₅ (Adds-deploy N parent deployer _ t₅)
                  λ _ t₆ k₆. Post-pure _ t₆ k₆

  pub creator : (s : World N) → Adds N parent creator_facts (deploy_creator N deployer) s
  unfolding deploy_creator initializer_arity
  creator s =
      after N parent _ _ s (start N parent s)
        (Adds-deploy N parent deployer Contract.arb_multicall2 s)
        λ multicall t₁ k₁.
          after N parent _ _ t₁ k₁ (Adds-deploy N parent deployer Contract.proxy_admin t₁)
            λ admin t₂ k₂.
              after N parent _ _ t₂ k₂
                (Adds-deploy N parent deployer Contract.l1_atomic_token_bridge_creator t₂)
                λ logic t₃ k₃.
                  after N parent _ _ t₃ k₃ (Adds-deploy N parent deployer (proxied logic admin) t₃)
                    λ proxy t₄ k₄.
                      after N parent _ _ t₄ k₄
                        (Adds-deploy N parent deployer Contract.l1_token_bridge_retryable_sender t₄)
                        λ sender_logic t₅ k₅.
                          after N parent _ _ t₅ k₅
                            (Adds-deploy N parent deployer (proxied sender_logic admin) t₅)
                            λ sender t₆ k₆.
                              after_then N parent _ _ t₆ k₆
                                (Adds-send N parent deployer _ t₆
                                  Contract.l1_token_bridge_retryable_sender (inl k₆.facts.1.0) refl)
                                λ t₇ k₇.
                                  after_then N parent _ _ t₇ k₇
                                    (Adds-send N parent deployer _ t₇
                                      Contract.l1_atomic_token_bridge_creator
                                      (inr (
                                        logic,
                                        admin,
                                        codes "0x",
                                        k₇.facts.1.1.0,
                                        k₇.facts.1.1.1.0,
                                      ))
                                      refl)
                                    λ t₈ k₈. Post-pure _ t₈ k₈
