-- ===== src/Upgrades/Update/Resume.antt =====
-- `updateImplementations` with a temporary file that a broken-off run has left.
use arb_bridge_peripherals.Base.{
  ◌≡◌, sym, ap, ◌∙◌, Bool, Option, some, List, ◌∷◌, ok, err, exited, effects, arith, bind-eq-ok,
  then-eq-ok, throw_if-eq-ok, subst, Result,
}
use arb_bridge_peripherals.Upgrades.Node.{Hre, World, CurrentDeployments, Reply, boolean, ask_user}
use arb_bridge_peripherals.Upgrades.Files.{is_yes, load_tmp_deployments, get_deployments}
use arb_bridge_peripherals.Upgrades.Signer.{await_compile, ensure_clean_git_tree}
use arb_bridge_peripherals.Upgrades.Verify.{verify_current_implementations}
use arb_bridge_peripherals.Upgrades.Update.{update_implementations}

module _ (H : Hre) where
  -- A prompt of the type `confirm` answers with a Boolean; whichever it is, the process ends.
  load_tmp_deployments-exits :
      (w : World H) {d : CurrentDeployments} {b : Bool} {rs : List Reply}
      → w.tmp_deployment ≡ some d
      → w.replies ≡ boolean b ∷ rs
      → load_tmp_deployments H w ≡ (err exited, record w { replies = rs })
  unfolding load_tmp_deployments ask_user is_yes effects
  load_tmp_deployments-exits w e f = ground arith

  await_compile-same :
      (w : World H) {u : Unit {0}} {t : World H} → await_compile H w ≡ (ok u, t) → w ≡ t
  unfolding await_compile effects
  await_compile-same w h = ground arith

  get_deployments-same :
      (w : World H) {d : CurrentDeployments} {t : World H} → get_deployments H w ≡ (ok d, t) → w ≡ t
  unfolding get_deployments effects
  get_deployments-same w h = ground arith

  ensure_clean-same :
      (w : World H) {u : Unit {0}} {t : World H} → ensure_clean_git_tree H w ≡ (ok u, t) → w ≡ t
  unfolding ensure_clean_git_tree
  ensure_clean-same w h = (throw_if-eq-ok _ _ w h).1

  module _ (d : CurrentDeployments) (b : Bool) (rs : List Reply) where
    -- A state in which the temporary file is there, and the next answer is a Boolean.
    abbrev Waits : World H → Type 0
    Waits w = (w.tmp_deployment ≡ some d) × (w.replies ≡ boolean b ∷ rs)

    verify-stuck :
        (w : World H) {v : Bool} {t : World H}
        → Waits w
        → ¬ (verify_current_implementations H w ≡ (ok v, t))
    unfolding verify_current_implementations
    verify-stuck w {v} {t} waits h =
        let (_, w₁, e₁, h₁) = then-eq-ok (await_compile H) _ w h in
        let (_, w₂, e₂, h₂) = bind-eq-ok (get_deployments H) _ w₁ h₁ in
        let (_, w₃, e₃, _) = bind-eq-ok (load_tmp_deployments H) _ w₂ h₂ in
        let there = subst Waits (await_compile-same w e₁ ∙ get_deployments-same w₁ e₂) waits in
        cc (
          ap (λ (p : Result (Option CurrentDeployments) × World H). p.0)
            (sym (load_tmp_deployments-exits w₂ there.0 there.1) ∙ e₃))

    -- With a temporary file on disk, and a Boolean as the answer of the `confirm` prompt, whichever it
    -- is, no run of the update ends well: a broken-off update is never taken up again.
    pub update_implementations-Stuck :
        (w : World H)
        → w.tmp_deployment ≡ some d
        → w.replies ≡ boolean b ∷ rs
        → (v : Bool) (t : World H) → ¬ (update_implementations H w ≡ (ok v, t))
    unfolding update_implementations
    update_implementations-Stuck w e f v t h =
        let (_, w₁, e₁, h₁) = then-eq-ok (await_compile H) _ w h in
        let (_, w₂, e₂, h₂) = then-eq-ok (ensure_clean_git_tree H) _ w₁ h₁ in
        let (_, w₃, e₃, _) = bind-eq-ok (verify_current_implementations H) _ w₂ h₂ in
        verify-stuck w₂ (subst Waits (await_compile-same w e₁ ∙ ensure_clean-same w₁ e₂) (e, f)) e₃
