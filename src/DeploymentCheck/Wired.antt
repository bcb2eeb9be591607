-- ===== src/DeploymentCheck/Wired.antt =====
-- What a test of the contracts that ends well has seen on the two chains.
use arb_bridge_peripherals.Base.{Text, moves_rules}
use arb_bridge_peripherals.Chain.{Network, World}
use arb_bridge_peripherals.Chain.Types.{Layer, parent, child, Getter}
use arb_bridge_peripherals.Chain.NetworkTypes.{L1Deployment, L2Deployment}
use arb_bridge_peripherals.DeploymentCheck.{RollupAddresses, expect, expect_zero, is_initialized}
use arb_bridge_peripherals.DeploymentCheck.Parent.{
  check_l1_router_initialization, check_l1_standard_gateway_initialization,
  check_l1_custom_gateway_initialization, check_l1_weth_gateway_initialization,
}
use arb_bridge_peripherals.DeploymentCheck.Child.{
  check_l2_router_initialization, check_l2_standard_gateway_initialization,
  check_l2_custom_gateway_initialization, check_l2_weth_gateway_initialization,
}
use arb_bridge_peripherals.DeploymentCheck.Rules.{
  Sees, Sees-weaken, Answers, Sees-expect_same, Sees-unchanged, Unchanged-preorder, Sees-also,
  Sees-expect_zero, Sees-expect_not_zero,
}

module _ {N : Network} (w : World N) where
  -- A gateway on one chain: its counterpart, its router, and on the parent chain its inbox.
  abbrev pub L1Gateway : Text → Text → L1Deployment → RollupAddresses → Type 0
  L1Gateway gateway counterpart l1 r =
      Answers w parent gateway Getter.counterpart_gateway counterpart
      × Answers w parent gateway Getter.router l1.router
      × Answers w parent gateway Getter.inbox r.inbox

  abbrev pub L2Gateway : Text → Text → L2Deployment → Type 0
  L2Gateway gateway counterpart l2 =
      Answers w child gateway Getter.counterpart_gateway counterpart
      × Answers w child gateway Getter.router l2.router

  -- A router: its default gateway, and its counterpart on the other chain.
  abbrev pub Router : Layer → Text → Text → Text → Type 0
  Router l router gateway counterpart =
      Answers w l router Getter.default_gateway gateway
      × Answers w l router Getter.counterpart_gateway counterpart

  pub l1_router :
      (router : Text) (l1 : L1Deployment) (l2 : L2Deployment) (r : RollupAddresses)
      → Sees w
          (λ _. Router parent router l1.standard_gateway l2.router)
          (check_l1_router_initialization N router l1 l2 r)
  unfolding check_l1_router_initialization
  l1_router router l1 l2 r =
      Sees-weaken w _ (λ _ (a, (b, (z, c))). (a, c))
        (Sees-also w _ _ (Sees-expect_same w _ _ _ _) (
          Sees-also w _ _ (Sees-expect_same w _ _ _ _)
            (Sees-also w _ _ (Sees-expect_zero w _ _ _) (Sees-expect_same w _ _ _ _))))

  pub l1_standard_gateway :
      (gateway : Text) (l1 : L1Deployment) (l2 : L2Deployment) (r : RollupAddresses)
      → Sees w
          (λ _. L1Gateway gateway l2.standard_gateway l1 r)
          (check_l1_standard_gateway_initialization N gateway l1 l2 r)
  unfolding check_l1_standard_gateway_initialization expect expect_zero
  l1_standard_gateway gateway l1 l2 r =
      Sees-weaken w _ (λ _ (a, (b, (c, _))). (a, b, c))
        (Sees-also w _ _ (Sees-expect_same w _ _ _ _) (
          Sees-also w _ _ (Sees-expect_same w _ _ _ _) (
            Sees-also w _ _ (Sees-expect_same w _ _ _ _)
              (Sees-unchanged w _ (search (moves_rules, Unchanged-preorder N) depth 30)))))

  pub l1_custom_gateway :
      (gateway : Text) (l1 : L1Deployment) (l2 : L2Deployment) (r : RollupAddresses)
      → Sees w
          (λ _. L1Gateway gateway l2.custom_gateway l1 r)
          (check_l1_custom_gateway_initialization N gateway l1 l2 r)
  unfolding check_l1_custom_gateway_initialization
  l1_custom_gateway gateway l1 l2 r =
      Sees-weaken w _ (λ _ (a, (b, (c, _))). (a, b, c))
        (Sees-also w _ _ (Sees-expect_same w _ _ _ _) (
          Sees-also w _ _ (Sees-expect_same w _ _ _ _)
            (Sees-also w _ _ (Sees-expect_same w _ _ _ _) (Sees-expect_zero w _ _ _))))

  pub l1_weth_gateway :
      (gateway : Text) (l1 : L1Deployment) (l2 : L2Deployment) (r : RollupAddresses)
      → Sees w
          (λ _. L1Gateway gateway l2.weth_gateway l1 r)
          (check_l1_weth_gateway_initialization N gateway l1 l2 r)
  unfolding check_l1_weth_gateway_initialization
  l1_weth_gateway gateway l1 l2 r =
      Sees-weaken w _ (λ _ (a, (b, (c, _))). (a, b, c))
        (Sees-also w _ _ (Sees-expect_same w _ _ _ _) (
          Sees-also w _ _ (Sees-expect_same w _ _ _ _) (
            Sees-also w _ _ (Sees-expect_same w _ _ _ _)
              (Sees-also w _ _ (Sees-expect_not_zero w _ _ _) (Sees-expect_not_zero w _ _ _)))))

  pub l2_router :
      (router : Text) (l1 : L1Deployment) (l2 : L2Deployment)
      → Sees w
          (λ _. Router child router l2.standard_gateway l1.router)
          (check_l2_router_initialization N router l1 l2)
  unfolding check_l2_router_initialization
  l2_router router l1 l2 =
      Sees-weaken w _ (λ _ (a, (z, c)). (a, c))
        (Sees-also w _ _ (Sees-expect_same w _ _ _ _)
          (Sees-also w _ _ (Sees-expect_zero w _ _ _) (Sees-expect_same w _ _ _ _)))

  pub l2_standard_gateway :
      (gateway : Text) (l1 : L1Deployment) (l2 : L2Deployment)
      → Sees w
          (λ _. L2Gateway gateway l1.standard_gateway l2)
          (check_l2_standard_gateway_initialization N gateway l1 l2)
  unfolding check_l2_standard_gateway_initialization expect is_initialized
  l2_standard_gateway gateway l1 l2 =
      Sees-weaken w _ (λ _ (a, (b, _)). (a, b))
        (Sees-also w _ _ (Sees-expect_same w _ _ _ _) (
          Sees-also w _ _ (Sees-expect_same w _ _ _ _)
            (Sees-unchanged w _ (search (moves_rules, Unchanged-preorder N) depth 30))))

  pub l2_custom_gateway :
      (gateway : Text) (l1 : L1Deployment) (l2 : L2Deployment)
      → Sees w
          (λ _. L2Gateway gateway l1.custom_gateway l2)
          (check_l2_custom_gateway_initialization N gateway l1 l2)
  unfolding check_l2_custom_gateway_initialization
  l2_custom_gateway gateway l1 l2 =
      Sees-also w _ _ (Sees-expect_same w _ _ _ _) (Sees-expect_same w _ _ _ _)

  pub l2_weth_gateway :
      (gateway : Text) (l1 : L1Deployment) (l2 : L2Deployment)
      → Sees w
          (λ _. L2Gateway gateway l1.weth_gateway l2)
          (check_l2_weth_gateway_initialization N gateway l1 l2)
  unfolding check_l2_weth_gateway_initialization
  l2_weth_gateway gateway l1 l2 =
      Sees-weaken w _ (λ _ (a, (b, _)). (a, b))
        (Sees-also w _ _ (Sees-expect_same w _ _ _ _) (
          Sees-also w _ _ (Sees-expect_same w _ _ _ _)
            (Sees-also w _ _ (Sees-expect_not_zero w _ _ _) (Sees-expect_not_zero w _ _ _))))
