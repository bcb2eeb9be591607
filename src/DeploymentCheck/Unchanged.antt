-- ===== src/DeploymentCheck/Unchanged.antt =====
-- The checks of roles, owners and the registration: that they only read, and what they see of the
-- parent chain's owners.
use arb_bridge_peripherals.Base.{
  ◌≡◌, refl, Bool, some, Text, ◌===◌, ===_sound, to_lower_case, Moves, Moves-then, ◌∙◌, moves_rules,
}
use arb_bridge_peripherals.Chain.{Network, World}
use arb_bridge_peripherals.Chain.Types.{Layer, parent, Getter}
use arb_bridge_peripherals.Chain.NetworkTypes.{L2Deployment}
use arb_bridge_peripherals.DeploymentCheck.{
  RollupAddresses, Addresses, expect, get_address_at_storage_slot, get_proxy_admin,
  get_logic_address, get_owner, is_initialized,
}
use arb_bridge_peripherals.DeploymentCheck.Parent.{check_l1_upgrade_executor_initialization}
use arb_bridge_peripherals.DeploymentCheck.Child.{check_l2_upgrade_executor_initialization}
use arb_bridge_peripherals.DeploymentCheck.Ownership.{
  expect_proxy_admin, expect_owner, expect_set, expect_logic_set, check_l1_ownership,
  check_l2_ownership, check_logic_contracts, check_weth_gateway_is_registered,
}
use arb_bridge_peripherals.DeploymentCheck.Whole.{
  check_roles_and_owners, check_registration, is_local_deployment,
}
use arb_bridge_peripherals.DeploymentCheck.Rules.{
  Sees, Sees-bind, Sees-pure, Sees-then, Sees-also, Sees-read, Sees-expect, Sees-weaken,
  Sees-unchanged, Unchanged-preorder,
}

module _ {N : Network} where
  abbrev pub Unchanged : World N → World N → Type 0
  Unchanged s t = t ≡ s

  proxy_admin-Unchanged : (l : Layer) (a x : Text) → Moves Unchanged (expect_proxy_admin N l a x)
  unfolding expect_proxy_admin get_proxy_admin get_address_at_storage_slot expect
  proxy_admin-Unchanged l a x = search (moves_rules, Unchanged-preorder N) depth 30

  owner-Unchanged : (l : Layer) (a x : Text) → Moves Unchanged (expect_owner N l a x)
  unfolding expect_owner get_owner expect
  owner-Unchanged l a x = search (moves_rules, Unchanged-preorder N) depth 30

  logic-Unchanged : (l : Layer) (a : Text) → Moves Unchanged (get_logic_address N l a)
  unfolding get_logic_address get_address_at_storage_slot
  logic-Unchanged l a = search (moves_rules, Unchanged-preorder N) depth 30

  logic_set-Unchanged :
      (l : Layer) (a : Text) (g : Getter) → Moves Unchanged (expect_logic_set N l a g)
  unfolding expect_logic_set expect_set expect
  logic_set-Unchanged l a g = search (moves_rules, Unchanged-preorder N, logic-Unchanged) depth 30

  l1_executor-Unchanged :
      (x : Text) (r : RollupAddresses)
      → Moves Unchanged (check_l1_upgrade_executor_initialization N x r)
  unfolding check_l1_upgrade_executor_initialization expect
  l1_executor-Unchanged x r = search (moves_rules, Unchanged-preorder N) depth 30

  l2_executor-Unchanged :
      (x : Text) (r : RollupAddresses)
      → Moves Unchanged (check_l2_upgrade_executor_initialization N x r)
  unfolding check_l2_upgrade_executor_initialization expect
  l2_executor-Unchanged x r = search (moves_rules, Unchanged-preorder N) depth 40

  l2_ownership-Unchanged :
      (l2 : L2Deployment) (b : Bool) → Moves Unchanged (check_l2_ownership N l2 b)
  unfolding check_l2_ownership get_proxy_admin get_address_at_storage_slot
  l2_ownership-Unchanged l2 b =
      search (moves_rules, Unchanged-preorder N, proxy_admin-Unchanged, owner-Unchanged) depth 40

  logic_contracts-Unchanged :
      (b : Bool) (l2 : L2Deployment) → Moves Unchanged (check_logic_contracts N b l2)
  unfolding check_logic_contracts is_initialized expect
  logic_contracts-Unchanged b l2 =
      search (moves_rules, Unchanged-preorder N, logic-Unchanged, logic_set-Unchanged) depth 40

  registered-Unchanged :
      (a b c d : Text) → Moves Unchanged (check_weth_gateway_is_registered N a b c d)
  unfolding check_weth_gateway_is_registered expect
  registered-Unchanged a b c d = search (moves_rules, Unchanged-preorder N) depth 40

  pub registration-Unchanged :
      (a : Addresses) (b : Bool) → Moves Unchanged (check_registration N a b)
  unfolding check_registration is_local_deployment
  registration-Unchanged a b =
      search (moves_rules, Unchanged-preorder N, registered-Unchanged) depth 30

module _ {N : Network} (w : World N) where
  -- `owner()` of a contract of the parent chain, in lower-case letters
  abbrev pub OwnedBy : Text → Text → Type 0
  OwnedBy a x = (v : Text) × (N.read parent a Getter.owner w.chain ≡ some v) × (to_lower_case v ≡ x)

  owner-Sees : (a x : Text) → Sees w (λ _. OwnedBy a x) (expect_owner N parent a x)
  unfolding expect_owner get_owner
  owner-Sees a x =
      Sees-bind w {P = OwnedBy a} _ _
        (Sees-read w _ _ _ _ (λ v e. Sees-pure w (to_lower_case v) (v, e, refl)))
        (λ o (v, e, f).
          Sees-weaken w _ (λ _ b. (v, e, f ∙ ===_sound o x b)) (Sees-expect w (o === x)))

  -- The upgrade executor owns the proxy admin, the router, and the custom gateway.
  abbrev pub Owned : Addresses → Type 0
  Owned a =
      let r = a.rollup_addresses in
      OwnedBy r.proxy_admin r.upgrade_executor
      × OwnedBy a.l1_deployment.router r.upgrade_executor
      × OwnedBy a.l1_deployment.custom_gateway r.upgrade_executor

  l1_ownership-Owned :
      (a : Addresses)
      → Sees w (λ _. Owned a) (check_l1_ownership N a.l1_deployment a.rollup_addresses)
  unfolding check_l1_ownership
  l1_ownership-Owned a = Sees-then w _ _ (admin _) (λ _ _. Sees-then w _ _ (admin _) (λ _ _.
      Sees-then w _ _ (admin _) (λ _ _.
        Sees-then w _ _
          (Sees-unchanged w _
            (search (moves_rules, Unchanged-preorder N, proxy_admin-Unchanged) depth 10))
          (λ _ _. Sees-then w _ _ (admin _) (λ _ _.
            Sees-weaken w _ (λ _ (x, (y, z)). (x, y, z))
              (Sees-also w _ _ (owner-Sees _ _)
                (Sees-also w _ _ (owner-Sees _ _) (owner-Sees _ _))))))))
    where
      admin :
          (x : Text)
          → Sees w (λ _. Unit {0}) (expect_proxy_admin N parent x a.rollup_addresses.proxy_admin)
      admin x = Sees-unchanged w _ (proxy_admin-Unchanged parent x a.rollup_addresses.proxy_admin)

  pub roles_and_owners-Owned :
      (a : Addresses) (b : Bool) → Sees w (λ _. Owned a) (check_roles_and_owners N a b)
  unfolding check_roles_and_owners
  roles_and_owners-Owned a b =
      Sees-then w _ _ (Sees-unchanged w _ (l1_executor-Unchanged r.upgrade_executor r)) (λ _ _.
        Sees-then w _ _
          (Sees-unchanged w _ (l2_executor-Unchanged a.l2_deployment.upgrade_executor r))
          (λ _ _. Sees-then w _ _ (l1_ownership-Owned a) (λ _ owned.
            Sees-weaken w _ (λ _ _. owned)
              (Sees-unchanged w _ (
                Moves-then (Unchanged-preorder N) _ _ (l2_ownership-Unchanged a.l2_deployment b)
                  (logic_contracts-Unchanged b a.l2_deployment))))))
    where
      r : RollupAddresses
      r = a.rollup_addresses
