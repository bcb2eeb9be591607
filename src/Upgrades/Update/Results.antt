-- ===== src/Upgrades/Update/Results.antt =====
-- `updateImplementations` as a whole.
use arb_bridge_peripherals.Base.{
  ◌≡◌, sym, subst, ◌∙◌, Bool, true, not, none, some, List, Text, ok, length, ◌==◌, same_address,
  bind-eq-ok, then-eq-ok, bind-ok, then-ok, throw_if, ◌>>=◌, ◌>>◌, Moves-ask,
}
use arb_bridge_peripherals.Base.Dict.{keys, contains, contains-keys}
use arb_bridge_peripherals.Upgrades.Names.{ContractName, ContractName-discrete}
use arb_bridge_peripherals.Upgrades.Node.{
  Hre, World, Run, Read, read, QueuedUpdate, QueuedUpdates, CurrentDeployment, CurrentDeployments,
}
use arb_bridge_peripherals.Upgrades.Files.{
  get_queued_updates, get_deployments, create_or_load_tmp_deployments_file, write_current,
  unlink_tmp,
}
use arb_bridge_peripherals.Upgrades.Signer.{await_compile, ensure_clean_git_tree, get_signer}
use arb_bridge_peripherals.Upgrades.Frames.{
  SameFiles, SameFiles-preorder, verify-SameFiles, get_signer-SameFiles,
}
use arb_bridge_peripherals.Upgrades.Verify.{deployment_of, verify_current_implementations}
use arb_bridge_peripherals.Upgrades.Update.{Progress, update_each, update_implementations}
use arb_bridge_peripherals.Upgrades.Update.Progress.{queue_entry, IsDone, Tracks, Saved}
use arb_bridge_peripherals.Upgrades.Update.Loop.{advance_all-Tracks, advance_all-IsDone}
use arb_bridge_peripherals.Upgrades.Update.Refinement.{board_of, Applies, update_each-Triple}
use arb_bridge_peripherals.Upgrades.Update.Steps.{
  ended, start_of, queue_of, deployments_of, write_current-Wrote, unlink_tmp-Wrote,
  await_compile-SameFiles, ensure_clean-SameFiles, kept, chain, checked,
}

module _ (H : Hre) where
  -- What a run that ends well has done to the files and to the chain.
  pub record Applied (p : Progress) (b : Bool) (t : World H) : Type 0 where
    pub progress : Progress
    pub unlinked : t.tmp_deployment ≡ none
    pub current : t.current_deployment ≡ some progress.0
    pub queued : t.queued_updates ≡ some progress.1
    pub verified :
        (v : World H) × (v.current_deployment ≡ some progress.0)
        × (v.tmp_deployment ≡ none)
        × (verify_current_implementations H v ≡ (ok b, t))
    -- the transactions, from the first to the verification
    pub signer : Text
    pub before : H.State
    pub upgraded : Applies H signer (board_of p) before (board_of progress) verified.0.chain
    pub tracks : Tracks p progress
    pub applied :
        (n : ContractName) (d : CurrentDeployment) (q : QueuedUpdate)
        → deployment_of p.0 n ≡ some d
        → queue_entry p n ≡ some q
        → IsDone p progress n

  module _
      (sorts : (n : ContractName) (l : List ContractName)
        → contains ContractName-discrete n l ≡ true
        → contains ContractName-discrete n (H.sort_updates l) ≡ true)
      (d : CurrentDeployments) (q : QueuedUpdates) where
    -- The run from the loop on.
    finish :
        (signer : Text) (w : World H) {b : Bool} {t : World H}
        → Saved H (d, q) w
        → (do
          p ← update_each H signer (H.sort_updates (keys q)) (d, q)
          write_current H p.0
          unlink_tmp H
          verify_current_implementations H)
            w
          ≡ (ok b, t)
        → Applied (d, q) b t
    finish signer w {b} {t} saved run =
        let (p, u, e, r) =
          bind-eq-ok (update_each H signer (H.sort_updates (keys q)) (d, q)) _ w run in
        let ((files, steps), all) =
          ended H (update_each-Triple H signer (H.sort_updates (keys q)) (d, q) w saved) e in
        let (_, v, e₁, r₁) = then-eq-ok (write_current H p.0) _ u r in
        let (_, x, e₂, r₂) = then-eq-ok (unlink_tmp H) _ v r₁ in
        let current = write_current-Wrote H u p.0 e₁ in
        let unlinked = unlink_tmp-Wrote H v e₂ in
        let same = kept H (verify_current_implementations H) (verify-SameFiles H) r₂ in
        record {
          progress = p;
          unlinked = same.tmp ∙ unlinked.tmp_is;
          current = same.current ∙ unlinked.current_is ∙ current.current_is;
          queued = same.queued ∙ unlinked.queued ∙ current.queued ∙ files.queue;
          verified = (x, unlinked.current_is ∙ current.current_is, unlinked.tmp_is, r₂);
          signer = signer;
          before = w.chain;
          upgraded =
              subst (λ y. Applies H signer (board_of (d, q)) w.chain (board_of p) y)
                (sym (unlinked.chain ∙ current.chain)) steps;
          tracks =
              subst (Tracks (d, q)) (sym all) (advance_all-Tracks (H.sort_updates (keys q)) (d, q));
          applied = λ n x u has queued.
              subst (λ y. IsDone (d, q) y n) (sym all)
                (advance_all-IsDone n (H.sort_updates (keys q)) (d, q) x u
                  (sorts n (keys q) (contains-keys ContractName-discrete n q u queued)) has queued);
        }

    -- The run from the temporary file on, and from the queue on.
    abbrev after_load : QueuedUpdates → CurrentDeployments → Run H Bool
    after_load queued tmp = do
      owner ← read H (Read.owner tmp.proxy_admin_address)
      signer ← get_signer H owner
      throw_if (not (same_address owner signer))
          "Signer address ${signer.address} != ProxyAdmin owner ${proxyAdminOwner}"
      throw_if (length queued == 0)
          "No logic implementations to upgrade to for current network / package"
      p ← update_each H signer (H.sort_updates (keys queued)) (tmp, queued)
      write_current H p.0
      unlink_tmp H
      verify_current_implementations H

    abbrev after_checks : Run H Bool
    after_checks = do
      queued ← get_queued_updates H
      get_deployments H
      tmp ← create_or_load_tmp_deployments_file H
      after_load queued tmp

    Saved-SameFiles : {w t : World H} → Saved H (d, q) w → SameFiles H w t → Saved H (d, q) t
    Saved-SameFiles saved same = record {
      tmp = same.tmp ∙ saved.tmp;
      queue = same.queued ∙ saved.queue;
    }

    after_load-Applied :
        (w : World H) {b : Bool} {t : World H}
        → Saved H (d, q) w
        → after_load q d w ≡ (ok b, t)
        → Applied (d, q) b t
    after_load-Applied w saved run =
        let (owner, u, e, r) = bind-eq-ok (read H (Read.owner d.proxy_admin_address)) _ w run in
        signed owner u (Saved-SameFiles saved (kept H _ (Moves-ask (SameFiles-preorder H) _) e)) r
      where
        signed :
            (owner : Text) (u : World H) {b : Bool} {t : World H}
            → Saved H (d, q) u
            → (do
              signer ← get_signer H owner
              throw_if
                  (not (same_address owner signer))
                  "Signer address ${signer.address} != ProxyAdmin owner ${proxyAdminOwner}"
              throw_if
                  (length q == 0)
                  "No logic implementations to upgrade to for current network / package"
              p ← update_each H signer (H.sort_updates (keys q)) (d, q)
              write_current H p.0
              unlink_tmp H
              verify_current_implementations H)
                u
              ≡ (ok b, t)
            → Applied (d, q) b t
        signed owner u saved r =
            let (signer, v, e, r₁) = bind-eq-ok (get_signer H owner) _ u r in
            let (_, x, e₁, r₂) = then-eq-ok (throw_if (not (same_address owner signer)) _) _ v r₁ in
            let (_, y, e₂, r₃) = then-eq-ok (throw_if (length q == 0) _) _ x r₂ in
            finish signer y
              (Saved-SameFiles
                (Saved-SameFiles (Saved-SameFiles saved (kept H _ (get_signer-SameFiles H owner) e))
                  (kept H _ (checked H (not (same_address owner signer)) _) e₁))
                (kept H _ (checked H (length q == 0) _) e₂))
              r₃

    after_checks-Applied :
        (w : World H) {b : Bool} {t : World H}
        → w.current_deployment ≡ some d
        → w.queued_updates ≡ some q
        → w.tmp_deployment ≡ none
        → after_checks w ≡ (ok b, t)
        → Applied (d, q) b t
    after_checks-Applied w {b} {t} current queued tmp run =
        let r = sym (bind-ok (get_queued_updates H) _ w q w (queue_of H w q queued)) ∙ run in
        let r₁ = sym (then-ok (get_deployments H) _ w d w (deployments_of H w d current)) ∙ r in
        let (x, u, e, r₂) =
          bind-eq-ok (create_or_load_tmp_deployments_file H) (after_load q) w r₁ in
        let (same, start) = start_of H w d current tmp e in
        after_load-Applied u (record { tmp = start.tmp_is; queue = start.queued ∙ queued })
          (subst (λ y. after_load q y u ≡ (ok b, t)) (sym same) r₂)

    pub update_implementations-Applied :
        (w : World H) {b : Bool} {t : World H}
        → w.current_deployment ≡ some d
        → w.queued_updates ≡ some q
        → w.tmp_deployment ≡ none
        → update_implementations H w ≡ (ok b, t)
        → Applied (d, q) b t
    unfolding update_implementations
    update_implementations-Applied w current queued tmp run =
        let (_, w₁, e₁, r₁) = then-eq-ok (await_compile H) _ w run in
        let (_, w₂, e₂, r₂) = then-eq-ok (ensure_clean_git_tree H) _ w₁ r₁ in
        let (v, w₃, e₃, r₃) = bind-eq-ok (verify_current_implementations H) _ w₂ r₂ in
        let (_, w₄, e₄, r₄) = then-eq-ok (throw_if (not v) _) after_checks w₃ r₃ in
        let same =
          chain H
            (chain H (kept H _ (await_compile-SameFiles H) e₁)
              (kept H _ (ensure_clean-SameFiles H) e₂))
            (chain H (kept H _ (verify-SameFiles H) e₃) (kept H _ (checked H (not v) _) e₄)) in
        after_checks-Applied w₄ (same.current ∙ current) (same.queued ∙ queued) (same.tmp ∙ tmp) r₄
