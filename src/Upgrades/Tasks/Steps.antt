-- ===== src/Upgrades/Tasks/Steps.antt =====
-- The tasks that write the files of deployments: `updateImplementations`, `removeBuildInfoFiles`.
use arb_bridge_peripherals.Base.{
  ◌≡◌, refl, ap, ◌∙◌, Option, none, some, List, [], ◌∷◌, Text, Post-bind, Post-then, Post-pure,
  Post-if, Moves-throw_if, Moves-ask, pure, exit,
}
use arb_bridge_peripherals.Base.Dict.{keys}
use arb_bridge_peripherals.Upgrades.Names.{ContractName}
use arb_bridge_peripherals.Upgrades.Node.{Hre, World, Run, CurrentDeployment}
use arb_bridge_peripherals.Upgrades.Files.{is_yes, remove_build_info_files}
use arb_bridge_peripherals.Upgrades.Verify.{deployment_of}
use arb_bridge_peripherals.Upgrades.Update.{
  set_deployment, new_deployment, upgrade_one, update_one, update_each, update_implementations,
  Progress,
}
use arb_bridge_peripherals.Upgrades.Tasks.Queueing.{
  SameDeployments-preorder, send-SameDeployments, write_queued-SameDeployments,
  await_compile-SameDeployments, clean_tree-SameDeployments, verify-SameDeployments,
  get_queued_updates-SameDeployments, get_signer-SameDeployments, global_prompt-SameDeployments,
}
use arb_bridge_peripherals.Upgrades.Tasks.Places.{
  places, Placed, KeepsPlaces, kept, kept_bind, kept_then, write_tmp-places, write_current-places,
  unlink_tmp-places, exit-places, get_deployments-places, create_or_load-places,
  places-set_deployment, proxies-drop_build_info,
}

module _ (H : Hre) (p : Text × List (ContractName × Text)) where
  -- The deployments that the loop carries are at the places too.
  abbrev Carries : Progress → Type 0
  Carries x = places x.0 ≡ p

  upgrade_one-places :
      (s : Text) (n : ContractName) (d : CurrentDeployment) (x : Progress) (w : World H)
      → deployment_of x.0 n ≡ some d
      → Carries x
      → Placed H p w
      → KeepsPlaces H p Carries (upgrade_one H s n d x) w
  unfolding upgrade_one
  upgrade_one-places s n d (tmp, queued) w h e k =
      kept_bind H p _ _ w (Moves-ask (SameDeployments-preorder H) _) k λ q t₁ k₁.
        kept_bind H p _ _ t₁ (Moves-ask (SameDeployments-preorder H) _) k₁ λ call t₂ k₂.
          kept_then H p _ _ t₂ (send-SameDeployments H s call) k₂ λ t₃ k₃.
            let at : places (set_deployment tmp n (new_deployment d q)) ≡ p =
              places-set_deployment tmp n d q h ∙ e in
            Post-then _ _ t₃ (write_tmp-places H p _ t₃ at k₃) λ _ t₄ k₄.
              kept_then H p _ _ t₄ (write_queued-SameDeployments H _) k₄.1
                λ t₅ k₅. Post-pure _ t₅ (at, k₅)

  update_one-places :
      (s : Text) (n : ContractName) (x : Progress) (w : World H)
      → Carries x
      → Placed H p w
      → KeepsPlaces H p Carries (update_one H s n x) w
  unfolding update_one
  update_one-places s n x w e k = at (deployment_of x.0 n) refl
    where
      at :
          (o : Option CurrentDeployment)
          → deployment_of x.0 n ≡ o
          → KeepsPlaces H p Carries
              (elim o as (λ _. Run H Progress) [ none ↦ pure x | some d ↦ upgrade_one H s n d x ])
              w
      at none h = Post-pure x w (e, k)
      at (some d) h = upgrade_one-places s n d x w h e k

  update_each-places :
      (s : Text) (ns : List ContractName) (x : Progress) (w : World H)
      → Carries x
      → Placed H p w
      → KeepsPlaces H p Carries (update_each H s ns x) w
  unfolding update_each
  update_each-places s [] x w e k = Post-pure x w (e, k)
  update_each-places s (n ∷ ns) x w e k =
      Post-bind _ _ w (update_one-places s n x w e k)
        λ x' t (e', k'). update_each-places s ns x' t e' k'

  pub update_implementations-places :
      (w : World H) → Placed H p w → KeepsPlaces H p (λ _. Unit) (update_implementations H) w
  unfolding update_implementations
  update_implementations-places w k =
      kept_then H p _ _ w (await_compile-SameDeployments H) k λ t₁ k₁.
        kept_then H p _ _ t₁ (clean_tree-SameDeployments H) k₁ λ t₂ k₂.
          kept_bind H p _ _ t₂ (verify-SameDeployments H) k₂ λ verified t₃ k₃.
            kept_then H p _ _ t₃ (Moves-throw_if (SameDeployments-preorder H) _ _) k₃ λ t₄ k₄.
              kept_bind H p _ _ t₄ (get_queued_updates-SameDeployments H) k₄ λ queued t₅ k₅.
                Post-then _ _ t₅ (get_deployments-places H p t₅ k₅) λ _ t₆ (_, k₆).
                  Post-bind _ _ t₆ (create_or_load-places H p t₆ k₆) λ tmp t₇ (e, k₇).
                    kept_bind H p _ _ t₇ (Moves-ask (SameDeployments-preorder H) _) k₇
                      λ owner t₈ k₈.
                        kept_bind H p _ _ t₈ (get_signer-SameDeployments H owner) k₈ λ signer t₉ k₉.
                          kept_then H p _ _ t₉ (Moves-throw_if (SameDeployments-preorder H) _ _) k₉
                            λ u₁ h₁.
                              kept_then H p _ _ u₁ (Moves-throw_if (SameDeployments-preorder H) _ _)
                                h₁
                                λ u₂ h₂.
                                  Post-bind _ _ u₂
                                    (update_each-places signer (H.sort_updates (keys queued))
                                      (tmp, queued) u₂ e h₂)
                                    λ x u₃ (e', h₃).
                                      Post-then _ _ u₃ (write_current-places H p x.0 u₃ e' h₃)
                                        λ _ u₄ (_, h₄).
                                          Post-then _ _ u₄ (unlink_tmp-places H p u₄ h₄)
                                            λ _ u₅ (_, h₅).
                                              kept H p _ u₅ (verify-SameDeployments H) h₅

  pub remove_build_info-places :
      (w : World H) → Placed H p w → KeepsPlaces H p (λ _. Unit) (remove_build_info_files H) w
  unfolding remove_build_info_files
  remove_build_info-places w k =
      kept_bind H p _ _ w (global_prompt-SameDeployments H) k λ reply t k₁.
        Post-if (is_yes reply) _ exit t
          (λ _. Post-bind _ _ t (get_deployments-places H p t k₁) λ d u (e, k₂).
            write_current-places H p _ u
              (ap (λ x. (d.proxy_admin_address, x)) (proxies-drop_build_info d.contracts) ∙ e) k₂)
          (λ _. exit-places H p t k₁)
