-- ===== src/DeploymentCheck/Sound.antt =====
-- The test from its addresses to its end.
use arb_bridge_peripherals.Base.{
  ◌≡◌, ◌≢◌, ◌⊎◌, inl, inr, Option, [], ◌∷◌, refl, ap, Bool, true, false, not, none, some, Text, ok,
  to_lower_case, ===_sound, pure, catch, ◌>>◌, moves_rules, effects, arith,
}
use arb_bridge_peripherals.Chain.{Network, World, read}
use arb_bridge_peripherals.Chain.Types.{parent, child, Getter}
use arb_bridge_peripherals.Chain.NetworkTypes.{L1Deployment, L2Deployment}
use arb_bridge_peripherals.Chain.FeeToken.{address_zero}
use arb_bridge_peripherals.DeploymentCheck.{
  Addresses, expect, is_using_fee_token, get_addresses, get_rollup_owner_from_logs,
}
use arb_bridge_peripherals.DeploymentCheck.Child.{check_l2_multicall_initialization}
use arb_bridge_peripherals.DeploymentCheck.Whole.{
  TestVars, EntryAddresses, entry_from_file, entry_addresses, check_no_weth, check_contracts,
  token_bridge_test,
}
use arb_bridge_peripherals.DeploymentCheck.Rules.{
  Sees, Sees-bind, Sees-then, Sees-pure, Sees-ask, Sees-expect, Sees-if, Sees-when, Sees-weaken,
  Sees-also, Sees-read, Sees-unchanged, Unchanged-preorder,
}
use arb_bridge_peripherals.DeploymentCheck.Unchanged.{
  Owned, roles_and_owners-Owned, registration-Unchanged,
}
use arb_bridge_peripherals.DeploymentCheck.Wired.{
  Router, L1Gateway, L2Gateway, l1_router, l1_standard_gateway, l1_custom_gateway, l1_weth_gateway,
  l2_router, l2_standard_gateway, l2_custom_gateway, l2_weth_gateway,
}

abbrev pub IsUnset : Option Text → Type 0
IsUnset o = (o ≡ none) ⊎ (o ≡ some [])

module _ {N : Network} (w : World N) where
  -- Whether the bridge behind an inbox has a fee token.
  abbrev pub UsesFeeToken : Text → Bool → Type 0
  UsesFeeToken inbox b =
      (bridge : Text) × (N.read parent inbox Getter.bridge w.chain ≡ some bridge)
      × ((elim (N.read parent bridge Getter.native_token w.chain) [ none ↦ false | some _ ↦ true ])
          ≡ b)

  is_using_fee_token-Sees :
      (inbox : Text) → Sees w (UsesFeeToken inbox) (is_using_fee_token N inbox)
  unfolding is_using_fee_token effects
  is_using_fee_token-Sees inbox =
      Sees-read w _ _ _ _ (λ bridge e. Sees-weaken w _ (λ b f. (bridge, e, f)) (native bridge))
    where
      native :
          (bridge : Text)
          → Sees w
              (λ b.
                (elim (N.read parent bridge Getter.native_token w.chain) as (λ _. Bool) [
                  | none ↦ false
                  | some _ ↦ true
                ])
                ≡ b)
              (catch (read N parent bridge Getter.native_token >> pure true) (pure false))
      native bridge = record { sees = λ b t e. ground (arith, e) }

  check_no_weth-Sees :
      (l1 : L1Deployment) (l2 : L2Deployment)
      → Sees w
          (λ _. (l1.weth_gateway ≡ address_zero) × (l2.weth_gateway ≡ address_zero))
          (check_no_weth N l1 l2)
  unfolding check_no_weth
  check_no_weth-Sees l1 l2 =
      Sees-weaken w _
        (λ _ (a, (b, (c, d))).
          (===_sound l1.weth_gateway address_zero a, ===_sound l2.weth_gateway address_zero c))
        (Sees-also w _ _ (Sees-expect w _)
          (Sees-also w _ _ (Sees-expect w _) (Sees-also w _ _ (Sees-expect w _) (Sees-expect w _))))

  -- The contracts of a deployment, wired to each other.
  abbrev pub Wired : Addresses → Bool → Type 0
  Wired a b =
      let l1 = a.l1_deployment in
      let l2 = a.l2_deployment in
      let r = a.rollup_addresses in
      Router w parent l1.router l1.standard_gateway l2.router
      × Router w child l2.router l2.standard_gateway l1.router
      × L1Gateway w l1.standard_gateway l2.standard_gateway l1 r
      × L2Gateway w l2.standard_gateway l1.standard_gateway l2
      × L1Gateway w l1.custom_gateway l2.custom_gateway l1 r
      × L2Gateway w l2.custom_gateway l1.custom_gateway l2
      × UsesFeeToken r.inbox b
      × (b ≡ false
          → L1Gateway w l1.weth_gateway l2.weth_gateway l1 r
            × L2Gateway w l2.weth_gateway l1.weth_gateway l2)
      × (b ≡ true → (l1.weth_gateway ≡ address_zero) × (l2.weth_gateway ≡ address_zero))

  abbrev NoWeth : Addresses → Type 0
  NoWeth a =
      (a.l1_deployment.weth_gateway ≡ address_zero) × (a.l2_deployment.weth_gateway ≡ address_zero)

  abbrev L1Weth : Addresses → Type 0
  L1Weth a =
      L1Gateway w a.l1_deployment.weth_gateway a.l2_deployment.weth_gateway a.l1_deployment
        a.rollup_addresses

  multicall :
      (a : Addresses)
      → Sees w (λ _. Unit {0}) (check_l2_multicall_initialization N a.l2_deployment.multicall)
  unfolding check_l2_multicall_initialization expect
  multicall a = Sees-unchanged w _ (search (moves_rules, Unchanged-preorder N) depth 30)

  check_contracts-Wired : (a : Addresses) → Sees w (Wired a) (check_contracts N a)
  unfolding check_contracts
  check_contracts-Wired a =
      let l1 = a.l1_deployment in
      let l2 = a.l2_deployment in
      let r = a.rollup_addresses in
      Sees-then w _ _ (l1_router w l1.router l1 l2 r) (λ _ r₁.
        Sees-then w _ _ (l1_standard_gateway w l1.standard_gateway l1 l2 r) (λ _ s₁.
          Sees-then w _ _ (l1_custom_gateway w l1.custom_gateway l1 l2 r) (λ _ c₁.
            Sees-bind w _ _ (is_using_fee_token-Sees r.inbox) (λ b fee.
              Sees-then w {P = λ _. (b ≡ true → NoWeth a) × (b ≡ false → L1Weth a)} _ _
                (Sees-if w b _ _
                  (λ e. Sees-weaken w _ (λ _ z. (λ _. z, λ f. cc)) (check_no_weth-Sees l1 l2))
                  (λ e.
                    Sees-weaken w _ (λ _ g. (λ f. cc, λ _. g))
                      (l1_weth_gateway w l1.weth_gateway l1 l2 r)))
                (λ _ w₁. Sees-then w _ _ (l2_router w l2.router l1 l2) (λ _ r₂.
                  Sees-then w _ _ (l2_standard_gateway w l2.standard_gateway l1 l2) (λ _ s₂.
                    Sees-then w _ _ (l2_custom_gateway w l2.custom_gateway l1 l2) (λ _ c₂.
                      Sees-then w _ _ (multicall a) (λ _ _.
                        Sees-then w _ _
                          (Sees-when w (not b) _ (l2_weth_gateway w l2.weth_gateway l1 l2))
                          (λ _ w₂. Sees-pure w b (
                            r₁,
                            r₂,
                            s₁,
                            s₂,
                            c₁,
                            c₂,
                            fee,
                            (λ e. (w₁.1 e, w₂ (ap not e))),
                            w₁.0,
                          )))))))))))

  -- The rollup and the creator that the test was given: those of the variables, if neither is empty, or
  -- those of the file, if a variable is unset or empty.
  abbrev pub Entry : TestVars → Text → Text → Type 0
  Entry v rollup creator =
      ((v.rollup_address ≡ some rollup)
        × (v.l1_token_bridge_creator ≡ some creator)
        × (rollup ≢ [])
        × (creator ≢ []))
      ⊎ ((IsUnset v.rollup_address ⊎ IsUnset v.l1_token_bridge_creator)
          × (e : EntryAddresses) × (v.network_file ≡ some e)
          × (e.rollup ≡ rollup)
          × (e.l1_token_bridge_creator ≡ creator))

  file_lem :
      (o : Option EntryAddresses) {b : EntryAddresses} {t : World N}
      → entry_from_file N o w ≡ (ok b, t)
      → (t ≡ w) × (o ≡ some b)
  unfolding entry_from_file effects
  file_lem none h = cc
  file_lem (some e) h = (cc, cc)

  from_file :
      (v : TestVars) {b : EntryAddresses} {t : World N}
      → IsUnset v.rollup_address ⊎ IsUnset v.l1_token_bridge_creator
      → entry_from_file N v.network_file w ≡ (ok b, t)
      → (t ≡ w) × Entry v b.rollup b.l1_token_bridge_creator
  from_file v {b} u h =
      let (same, file) = file_lem v.network_file h in (same, inr (u, b, file, refl, refl))

  entry_addresses-Sees :
      (v : TestVars)
      → Sees w (λ e. Entry v e.rollup e.l1_token_bridge_creator) (entry_addresses N v)
  unfolding entry_addresses effects arb_bridge_peripherals.Base.◌===◌
  entry_addresses-Sees v = record {
    sees = λ b t e. at v.rollup_address v.l1_token_bridge_creator v refl refl e;
  }
    where
      at :
          (r c : Option Text) (x : TestVars) {b : EntryAddresses} {t : World N}
          → x.rollup_address ≡ r
          → x.l1_token_bridge_creator ≡ c
          → entry_addresses N (record x { rollup_address = r; l1_token_bridge_creator = c }) w
            ≡ (ok b, t)
          → (t ≡ w) × Entry x b.rollup b.l1_token_bridge_creator
      at none c x p q h = from_file x (inl (inl p)) h
      at (some r) none x p q h = from_file x (inr (inl q)) h
      at (some []) (some c) x p q h = from_file x (inl (inr p)) h
      at (some (r ∷ rs)) (some []) x p q h = from_file x (inr (inr q)) h
      at (some (r ∷ rs)) (some (c ∷ cs)) x p q h = (cc, inl (cc, cc, λ e. cc, λ e. cc))

  -- The addresses are those that the creator has registered for the rollup's inbox.
  abbrev pub Registered : Text → Text → Addresses → Type 0
  Registered rollup creator a =
      (inbox : Text) × (N.read parent rollup Getter.inbox w.chain ≡ some inbox)
      × (a.rollup_addresses.inbox ≡ to_lower_case inbox)
      × (N.inbox_to_l1_deployment creator inbox w.chain ≡ some a.l1_deployment)
      × (N.inbox_to_l2_deployment creator inbox w.chain ≡ some a.l2_deployment)

  owner_from_logs : (c i : Text) → Sees w (λ _. Unit {0}) (get_rollup_owner_from_logs N c i)
  unfolding get_rollup_owner_from_logs effects
  owner_from_logs c i = record { sees = λ b t e. (ground arith, tt) }

  get_addresses-Registered :
      (rollup creator : Text) → Sees w (Registered rollup creator) (get_addresses N rollup creator)
  unfolding get_addresses
  get_addresses-Registered rollup creator = Sees-read w _ _ _ _ (λ inbox e.
      Sees-read w _ _ _ _ (λ multicall _. Sees-read w _ _ _ _ (λ admin _.
        Sees-read w _ _ _ _ (λ executor _.
          Sees-bind w _ _ (owner_from_logs creator inbox) (λ owner _.
            Sees-bind w _ _ (Sees-ask w _ (λ l1 h. h)) (λ l1 f.
              Sees-bind w _ _ (Sees-ask w _ (λ l2 h. h))
                (λ l2 g. Sees-pure w _ (inbox, e, refl, f, g))))))))

  -- What the test has seen, with the addresses that it has found.
  abbrev pub Healthy : TestVars → Type 0
  Healthy v =
      (rollup : Text) × (creator : Text) × Entry v rollup creator
      × (a : Addresses) × Registered rollup creator a
      × Owned w a
      × ((b : Bool) × Wired a b)

  token_bridge_test-Sees : (v : TestVars) → Sees w (λ _. Healthy v) (token_bridge_test N v)
  unfolding token_bridge_test
  token_bridge_test-Sees v = Sees-bind w _ _ (entry_addresses-Sees v) (λ e entry.
      Sees-bind w _ _ (get_addresses-Registered e.rollup e.l1_token_bridge_creator) (λ a registered.
        Sees-read w _ _ _ _ (λ sender _. Sees-bind w _ _ (Sees-ask w _ (λ x h. h)) (λ expected _.
          Sees-then w _ _ (Sees-expect w _) (λ _ _.
            Sees-bind w _ _ (check_contracts-Wired a) (λ b wired.
              Sees-then w _ _ (roles_and_owners-Owned w a b) (λ _ owned.
                Sees-weaken w _
                  (λ _ _.
                    (e.rollup, e.l1_token_bridge_creator, entry, a, registered, owned, (b, wired)))
                  (Sees-unchanged w _ (registration-Unchanged a b)))))))))

  -- The test changes nothing. If it passes, it has looked at the contracts that the creator has
  -- registered for the rollup's inbox, where rollup and creator are those of the variables, or those of
  -- the network file if a variable is unset or empty: the two routers and the two pairs of gateways name each other as
  -- counterparts and have the routers, inbox and default gateway of the deployment, the upgrade executor
  -- owns the proxy admin, the router and the custom gateway of the parent chain, and the WETH gateways are
  -- a pair as well, or have the zero address if the bridge has a fee token.
  pub token_bridge_test-Healthy :
      (v : TestVars) (t : World N) → token_bridge_test N v w ≡ (ok tt, t) → (t ≡ w) × Healthy v
  token_bridge_test-Healthy v t h = (token_bridge_test-Sees v).sees tt t h
