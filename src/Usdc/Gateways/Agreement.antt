-- ===== src/Usdc/Gateways/Agreement.antt =====
-- What `_initializeGateways` has found out about the two gateways when it returns.
use arb_bridge_peripherals.Base.{
  ◌≡◌, subst, ◌∙◌, some, Bool, false, Text, ok, bind-eq-ok, then-eq-ok, throw_if-eq-ok,
  any_run_nil-eq,
}
use arb_bridge_peripherals.Chain.Types.{parent, child, Getter}
use arb_bridge_peripherals.Chain.{Network, World}
use arb_bridge_peripherals.Chain.Reads.{agrees}
use arb_bridge_peripherals.Usdc.Env.{Settings}
use arb_bridge_peripherals.Usdc.Gateways.{
  l1_gateway_differs, l2_gateway_differs, initialize_gateways,
}

-- What the two gateways answer in a state of the chains.
pub record Paired (N : Network) (s : Settings)
    (l1_gateway l2_gateway inbox l2_usdc owner_l1 owner_l2 : Text) (c : N.State) : Type 0 where
  pub l1_counterpart : N.read parent l1_gateway Getter.counterpart_gateway c ≡ some l2_gateway
  pub l2_counterpart : N.read child l2_gateway Getter.counterpart_gateway c ≡ some l1_gateway
  pub l1_router : N.read parent l1_gateway Getter.router c ≡ some s.l1_router
  pub l2_router : N.read child l2_gateway Getter.router c ≡ some s.l2_router
  pub l1_inbox : N.read parent l1_gateway Getter.inbox c ≡ some inbox
  pub l1_tokens :
      (N.read parent l1_gateway Getter.l1_usdc c ≡ some s.l1_usdc)
      × (N.read parent l1_gateway Getter.l2_usdc c ≡ some l2_usdc)
  pub l2_tokens :
      (N.read child l2_gateway Getter.l1_usdc c ≡ some s.l1_usdc)
      × (N.read child l2_gateway Getter.l2_usdc c ≡ some l2_usdc)
  pub l1_owner : N.read parent l1_gateway Getter.owner c ≡ some owner_l1
  pub l2_owner : N.read child l2_gateway Getter.owner c ≡ some owner_l2

module _ (N : Network) (s : Settings)
    (l1_gateway l2_gateway inbox l2_usdc deployer_l1 deployer_l2 : Text) where
  abbrev L1Answers : World N → Type 0
  L1Answers w =
      (N.read parent l1_gateway Getter.router w.chain ≡ some s.l1_router)
      × (N.read parent l1_gateway Getter.inbox w.chain ≡ some inbox)
      × (N.read parent l1_gateway Getter.l1_usdc w.chain ≡ some s.l1_usdc)
      × (N.read parent l1_gateway Getter.l2_usdc w.chain ≡ some l2_usdc)
      × (N.read parent l1_gateway Getter.owner w.chain ≡ some deployer_l1)
      × (N.read parent l1_gateway Getter.counterpart_gateway w.chain ≡ some l2_gateway)

  l1_answers :
      (w : World N) {t : World N}
      → l1_gateway_differs N l1_gateway l2_gateway inbox l2_usdc deployer_l1 s w ≡ (ok false, t)
      → L1Answers w × (w ≡ t)
  unfolding l1_gateway_differs
  l1_answers w h =
      let (a, h₁) = agrees N parent l1_gateway Getter.router s.l1_router _ w h in
      let (b, h₂) = agrees N parent l1_gateway Getter.inbox inbox _ w h₁ in
      let (c, h₃) = agrees N parent l1_gateway Getter.l1_usdc s.l1_usdc _ w h₂ in
      let (d, h₄) = agrees N parent l1_gateway Getter.l2_usdc l2_usdc _ w h₃ in
      let (e, h₅) = agrees N parent l1_gateway Getter.owner deployer_l1 _ w h₄ in
      let (f, h₆) = agrees N parent l1_gateway Getter.counterpart_gateway l2_gateway _ w h₅ in
      ((a, b, c, d, e, f), any_run_nil-eq w h₆)

  abbrev L2Answers : World N → Type 0
  L2Answers w =
      (N.read child l2_gateway Getter.counterpart_gateway w.chain ≡ some l1_gateway)
      × (N.read child l2_gateway Getter.router w.chain ≡ some s.l2_router)
      × (N.read child l2_gateway Getter.l1_usdc w.chain ≡ some s.l1_usdc)
      × (N.read child l2_gateway Getter.l2_usdc w.chain ≡ some l2_usdc)
      × (N.read child l2_gateway Getter.owner w.chain ≡ some deployer_l2)

  l2_answers :
      (w : World N) {t : World N}
      → l2_gateway_differs N l1_gateway l2_gateway l2_usdc deployer_l2 s w ≡ (ok false, t)
      → L2Answers w × (w ≡ t)
  unfolding l2_gateway_differs
  l2_answers w h =
      let (a, h₁) = agrees N child l2_gateway Getter.counterpart_gateway l1_gateway _ w h in
      let (b, h₂) = agrees N child l2_gateway Getter.router s.l2_router _ w h₁ in
      let (c, h₃) = agrees N child l2_gateway Getter.l1_usdc s.l1_usdc _ w h₂ in
      let (d, h₄) = agrees N child l2_gateway Getter.l2_usdc l2_usdc _ w h₃ in
      let (e, h₅) = agrees N child l2_gateway Getter.owner deployer_l2 _ w h₄ in
      ((a, b, c, d, e), any_run_nil-eq w h₅)

  -- When the initialization returns, in the state of the chains that it leaves, each gateway names the
  -- other as its counterpart, and both name the routers, the tokens, the inbox and the owners given.
  pub initialize_gateways-Paired :
      (w : World N) {t : World N}
      → initialize_gateways N s l1_gateway l2_gateway inbox l2_usdc deployer_l1 deployer_l2 w
        ≡ (ok tt, t)
      → Paired N s l1_gateway l2_gateway inbox l2_usdc deployer_l1 deployer_l2 t.chain
  unfolding initialize_gateways
  initialize_gateways-Paired w {t} h =
      let (_, w₁, _, h₁) = then-eq-ok _ _ w h in
      let (_, w₂, _, h₂) = then-eq-ok _ _ w₁ h₁ in
      let (l1_wrong, w₃, e₃, h₃) = bind-eq-ok _ _ w₂ h₂ in
      let (_, w₄, e₄, h₄) = then-eq-ok _ _ w₃ h₃ in
      let (l2_wrong, w₅, e₅, h₅) = bind-eq-ok _ _ w₄ h₄ in
      conclude w₂ w₃ w₄ w₅ l1_wrong l2_wrong e₃ (throw_if-eq-ok l1_wrong _ w₃ e₄) e₅
        (throw_if-eq-ok l2_wrong _ w₅ h₅)
    where
      conclude :
          (w₂ w₃ w₄ w₅ : World N) (l1_wrong l2_wrong : Bool)
          → l1_gateway_differs N l1_gateway l2_gateway inbox l2_usdc deployer_l1 s w₂
            ≡ (ok l1_wrong, w₃)
          → (l1_wrong ≡ false) × (w₃ ≡ w₄)
          → l2_gateway_differs N l1_gateway l2_gateway l2_usdc deployer_l2 s w₄ ≡ (ok l2_wrong, w₅)
          → (l2_wrong ≡ false) × (w₅ ≡ t)
          → Paired N s l1_gateway l2_gateway inbox l2_usdc deployer_l1 deployer_l2 t.chain
      conclude w₂ w₃ w₄ w₅ l1_wrong l2_wrong e₃ (f, p) e₅ (g, q) =
          let (l1, same) = l1_answers w₂ (
            subst
              (λ b.
                l1_gateway_differs N l1_gateway l2_gateway inbox l2_usdc deployer_l1 s w₂
                ≡ (ok b, w₃))
              f e₃) in
          let (l2, same') = l2_answers w₄ (
            subst
              (λ b.
                l2_gateway_differs N l1_gateway l2_gateway l2_usdc deployer_l2 s w₄ ≡ (ok b, w₅))
              g e₅) in
          let (a, b, c, d, e, f) = subst L1Answers (same ∙ p ∙ same' ∙ q) l1 in
          let (a', b', c', d', e') = subst L2Answers (same' ∙ q) l2 in
          record {
            l1_counterpart = f;
            l2_counterpart = a';
            l1_router = a;
            l2_router = b';
            l1_inbox = b;
            l1_tokens = (c, d);
            l2_tokens = (c', d');
            l1_owner = e;
            l2_owner = e';
          }
