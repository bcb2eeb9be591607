-- ===== src/TokenBridge/Creator/Typed/Submissions.antt =====
-- The transaction that sets the templates, and the submissions for verification, once all of the
-- contracts are deployed.
use arb_bridge_peripherals.Base.{
  ◌≡◌, sym, subst, ask, ◌>>=◌, Triple, Post-bind, Post-ask, refl, inr, List, [], ◌∷◌, ◌++◌, ℕ, Bool,
  Text, codes, All, Post-weaken, All-map, All-append-left, All-append-right, true, false, when,
  effects,
}
use arb_bridge_peripherals.Chain.Types.{parent, Contract, Calldata, L1Templates, L2Templates}
use arb_bridge_peripherals.Chain.{Network, World, send, submit}
use arb_bridge_peripherals.Chain.Typed.{Has, Behind, l1_facts, l2_facts}
use arb_bridge_peripherals.Chain.Typed.Steps.{
  start, Grows, Grows-trans, Has-Grows, Known, Adds, Adds-send, Adds-submit, after_then,
}
use arb_bridge_peripherals.TokenBridge.Creator.Verification.{
  Deployed, submit_all, creator_contracts,
}
use arb_bridge_peripherals.TokenBridge.Creator.{CreatorContracts}
use arb_bridge_peripherals.TokenBridge.Creator.Typed.Parts.{creator_facts}

module _ (N : Network) (deployer : Text) where
  pub submitted_all :
      (ds : List Deployed) (s : World N)
      → All (λ d. (c : Contract) × Has parent s.log (c, d.address)) ds
      → Adds N parent (λ _. []) (submit_all N ds) s
  unfolding submit_all effects
  submitted_all [] s h = record { holds = start N parent s }
  submitted_all (d ∷ ds) s ((c, h), hs) = first (submitted_all ds)
    where
      Submitted : World N → Type 0
      Submitted t = All (λ x. (c : Contract) × Has parent t.log (c, x.address)) ds

      first :
          ((t : World N) → Submitted t → Adds N parent (λ _. []) (submit_all N ds) t)
          → Adds N parent (λ _. []) (submit_all N (d ∷ ds)) s
      first rest = record {
        holds =
            (after_then N parent {fs = []} {Q = λ _ u. Known N parent s [] u}
              (submit N d.name d.address d.constructor_args) (submit_all N ds) s (start N parent s)
              (Adds-submit N parent d.name d.address d.constructor_args s c h)
              λ t k.
                Post-weaken _ t
                  (λ _ u k'. record {
                    grows = Grows-trans N parent s t u k.grows k'.grows;
                    facts = tt;
                  })
                  (λ u g. Grows-trans N parent s t u k.grows g)
                  (rest t (
                    All-map ds
                      (λ x (c', h'). (c', Has-Grows N parent s t k.grows (c', x.address) h'))
                      hs))).holds;
      }

  -- What is known of the addresses when all of the contracts are deployed.
  pub record Complete (c : CreatorContracts) (l1 : L1Templates) (l2 : L2Templates)
      (multicall : Text) (t : World N) : Type 0 where
    pub own : All (Has parent t.log) (creator_facts c)
    pub l1_templates_known : All (Has parent t.log) (l1_facts l1)
    pub l2_templates_known : All (Has parent t.log) (l2_facts l2)
    pub l1_multicall : Has parent t.log (Contract.multicall2, multicall)

  pub complete :
      (c : CreatorContracts) (l1 : L1Templates) (l2 : L2Templates) (multicall : Text)
      (w t : World N)
      → Known N parent w
          ((Contract.multicall2, multicall)
            ∷ (l2_facts l2 ++ (l1_facts l1 ++ (creator_facts c ++ []))))
          t
      → Complete c l1 l2 multicall t
  complete c l1 l2 multicall w t k = record {
    own = All-append-left (Has parent t.log) (creator_facts c) [] own_and;
    l1_templates_known =
        All-append-left (Has parent t.log) (l1_facts l1) (creator_facts c ++ []) l1_and;
    l2_templates_known =
        All-append-left (Has parent t.log) (l2_facts l2) (l1_facts l1 ++ (creator_facts c ++ []))
          k.facts.1;
    l1_multicall = k.facts.0;
  }
    where
      l1_and : All (Has parent t.log) (l1_facts l1 ++ (creator_facts c ++ []))
      l1_and =
          All-append-right (Has parent t.log) (l2_facts l2) (l1_facts l1 ++ (creator_facts c ++ []))
            k.facts.1

      own_and : All (Has parent t.log) (creator_facts c ++ [])
      own_and = All-append-right (Has parent t.log) (l1_facts l1) (creator_facts c ++ []) l1_and

  pub creator-Behind :
      (c : CreatorContracts) (t : World N)
      → All (Has parent t.log) (creator_facts c)
      → Behind parent t.log Contract.l1_atomic_token_bridge_creator c.creator
        × Behind parent t.log Contract.l1_token_bridge_retryable_sender c.sender
  creator-Behind c t (sender, (sender_logic, (creator_proxy, (logic, _)))) = (
    inr (c.logic, c.proxy_admin, codes "0x", creator_proxy, logic),
    inr (c.sender_logic, c.proxy_admin, codes "0x", sender, sender_logic),
  )

  pub contracts_known :
      (c : CreatorContracts) (l1 : L1Templates) (l2 : L2Templates) (multicall : Text) (t : World N)
      → All (Has parent t.log) (creator_facts c)
      → All (Has parent t.log) (l1_facts l1)
      → All (Has parent t.log) (l2_facts l2)
      → Has parent t.log (Contract.multicall2, multicall)
      → All
          (λ d. (x : Contract) × Has parent t.log (x, d.address))
          (creator_contracts c.proxy_admin c.logic c.creator c.sender_logic c.sender l1 l2
            multicall)
  unfolding creator_contracts
  contracts_known c l1 l2 multicall t (sender, (sender_logic, (creator_proxy, (logic, (admin, _)))))
        (
          executor,
          (
            orbit_custom,
            (orbit_standard, (orbit_router, (l1_weth, (l1_custom, (l1_standard, (l1_router, _)))))),
          ),
        )
        (weth, (weth_gateway, (custom, (standard, (router, (factory, (l2_multicall, _))))))) m =
      (
        (_, admin),
        (
          (_, logic),
          (
            (_, creator_proxy),
            (
              (_, sender_logic),
              (
                (_, sender),
                (
                  (_, l1_router),
                  (
                    (_, l1_standard),
                    (
                      (_, l1_custom),
                      (
                        (_, l1_weth),
                        (
                          (_, orbit_router),
                          (
                            (_, orbit_standard),
                            (
                              (_, orbit_custom),
                              (
                                (_, executor),
                                (
                                  (_, factory),
                                  (
                                    (_, router),
                                    (
                                      (_, standard),
                                      (
                                        (_, custom),
                                        (
                                          (_, weth_gateway),
                                          ((_, weth), ((_, l2_multicall), ((_, m), tt))),
                                        ),
                                      ),
                                    ),
                                  ),
                                ),
                              ),
                            ),
                          ),
                        ),
                      ),
                    ),
                  ),
                ),
              ),
            ),
          ),
        ),
      )

  -- The transaction that sets the templates, and the submissions.
  pub templates_typed :
      (c : CreatorContracts) (l1 : L1Templates) (l2 : L2Templates) (multicall l1_weth : Text)
      (gas_limit : ℕ) (t : World N)
      → Complete c l1 l2 multicall t
      → Adds N parent
          (λ _. [])
          (send N parent deployer (record {
            to = c.creator;
            value = 0;
            calldata = Calldata.set_templates l1 l2 l1_weth multicall gas_limit;
          }))
          t
  templates_typed c l1 l2 multicall l1_weth gas_limit t h =
      Adds-send N parent deployer _ t Contract.l1_atomic_token_bridge_creator
        (creator-Behind c t h.own).0
        (refl, h.l1_templates_known, h.l2_templates_known, h.l1_multicall)

  pub submitted_when :
      (c : CreatorContracts) (l1 : L1Templates) (l2 : L2Templates) (multicall : Text)
      (verify : Bool) (t : World N)
      → Complete c l1 l2 multicall t
      → Adds N parent
          (λ _. [])
          (when verify (do
            _ ← ask (λ x. N.chain_id parent x.chain)
            submit_all N (
                creator_contracts c.proxy_admin c.logic c.creator c.sender_logic c.sender l1 l2
                  multicall)))
          t
  unfolding effects
  submitted_when c l1 l2 multicall true t h = record {
    holds =
        (Post-bind {P = λ _ u. u ≡ t} (ask (λ x. N.chain_id parent x.chain))
          (λ _. submit_all N (
            creator_contracts c.proxy_admin c.logic c.creator c.sender_logic c.sender l1 l2
              multicall))
          t
          (Post-ask (λ (x : World N). N.chain_id parent x.chain) t (λ _ _. refl)
            (start N parent t).grows)
          (λ _ u same.
            subst
              (λ x.
                Triple (λ _ y. Known N parent t [] y) (Grows N parent t)
                  (submit_all N (
                    creator_contracts c.proxy_admin c.logic c.creator c.sender_logic c.sender l1 l2
                      multicall))
                  x)
              (sym same)
              (submitted_all _ t (
                contracts_known c l1 l2 multicall t h.own h.l1_templates_known h.l2_templates_known
                  h.l1_multicall)))).holds;
  }
  submitted_when c l1 l2 multicall false t h = record { holds = start N parent t }
