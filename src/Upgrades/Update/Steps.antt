-- ===== src/Upgrades/Update/Steps.antt =====
-- The steps around the loop of `updateImplementations`, and what they leave of the files.
use arb_bridge_peripherals.Base.{
  ◌≡◌, refl, sym, ◌∙◌, ap, subst, arith, Bool, Option, none, some, Triple, Post, bind-ok,
  then-eq-ok, pure-value, pure-state, Result, ok, throw_if, effects, Moves, Moves-throw_if, String,
  moves_rules,
}
use arb_bridge_peripherals.Upgrades.Node.{Hre, World, Run, QueuedUpdates, CurrentDeployments}
use arb_bridge_peripherals.Upgrades.Files.{
  get_queued_updates, get_deployments, load_tmp_deployments, create_or_load_tmp_deployments_file,
  write_tmp, write_current, unlink_tmp,
}
use arb_bridge_peripherals.Upgrades.Files.Disk.{Post-on_disk}
use arb_bridge_peripherals.Upgrades.Signer.{await_compile, ensure_clean_git_tree}
use arb_bridge_peripherals.Upgrades.Frames.{SameFiles, SameFiles-preorder}

module _ (H : Hre) where
  -- What holds at the end of a run that has ended well.
  pub ended :
      {A : Type 0} {Q : A → World H → Type 0} {E : World H → Type 0} {m : Run H A} {w t : World H}
      {a : A}
      → Triple Q E m w
      → m w ≡ (ok a, t)
      → Q a t
  ended {Q = Q} {E = E} h e = subst (Post Q E) e h.holds

  pub queue_of :
      (w : World H) (q : QueuedUpdates)
      → w.queued_updates ≡ some q
      → get_queued_updates H w ≡ (ok q, w)
  unfolding get_queued_updates effects
  queue_of w q e = ground arith

  pub deployments_of :
      (w : World H) (d : CurrentDeployments)
      → w.current_deployment ≡ some d
      → get_deployments H w ≡ (ok d, w)
  unfolding get_deployments effects
  deployments_of w d e = ground arith

  -- The files with one of them written; the rest, and the chain, are as before.
  pub record Wrote (tmp current : Option CurrentDeployments) (w t : World H) : Type 0 where
    pub tmp_is : t.tmp_deployment ≡ tmp
    pub current_is : t.current_deployment ≡ current
    pub queued : t.queued_updates ≡ w.queued_updates
    pub chain : t.chain ≡ w.chain

  pub write_tmp-Wrote :
      (w : World H) (d : CurrentDeployments) {t : World H}
      → write_tmp H d w ≡ (ok tt, t)
      → Wrote (some d) w.current_deployment w t
  unfolding write_tmp
  write_tmp-Wrote w d e =
      ended {Q = λ _ x. Wrote (some d) w.current_deployment w x} {E = λ _. Unit {0}}
        (Post-on_disk H _ w
          (λ disk. record { tmp_is = refl; current_is = refl; queued = refl; chain = refl })
          (λ disk. tt))
        e

  pub write_current-Wrote :
      (w : World H) (d : CurrentDeployments) {t : World H}
      → write_current H d w ≡ (ok tt, t)
      → Wrote w.tmp_deployment (some d) w t
  unfolding write_current
  write_current-Wrote w d e =
      ended {Q = λ _ x. Wrote w.tmp_deployment (some d) w x} {E = λ _. Unit {0}}
        (Post-on_disk H _ w
          (λ disk. record { tmp_is = refl; current_is = refl; queued = refl; chain = refl })
          (λ disk. tt))
        e

  pub unlink_tmp-Wrote :
      (w : World H) {t : World H}
      → unlink_tmp H w ≡ (ok tt, t)
      → Wrote none w.current_deployment w t
  unfolding unlink_tmp
  unlink_tmp-Wrote w e =
      ended {Q = λ _ x. Wrote none w.current_deployment w x} {E = λ _. Unit {0}}
        (Post-on_disk H _ w
          (λ disk. record { tmp_is = refl; current_is = refl; queued = refl; chain = refl })
          (λ disk. tt))
        e

  no_tmp : (w : World H) → w.tmp_deployment ≡ none → load_tmp_deployments H w ≡ (ok none, w)
  unfolding load_tmp_deployments effects
  no_tmp w e = ground arith

  pub start_of :
      (w : World H) (d : CurrentDeployments) {x : CurrentDeployments} {t : World H}
      → w.current_deployment ≡ some d
      → w.tmp_deployment ≡ none
      → create_or_load_tmp_deployments_file H w ≡ (ok x, t)
      → (d ≡ x) × Wrote (some d) w.current_deployment w t
  unfolding create_or_load_tmp_deployments_file
  start_of w d e f run =
      let r₁ = sym (bind-ok (get_deployments H) _ w d w (deployments_of w d e)) ∙ run in
      let r₂ = sym (bind-ok (load_tmp_deployments H) _ w none w (no_tmp w f)) ∙ r₁ in
      let (_, u, wrote, r) = then-eq-ok (write_tmp H d) _ w r₂ in
      (
        pure-value d u r,
        subst (Wrote (some d) w.current_deployment w) (pure-state d u r)
            (write_tmp-Wrote w d wrote),
      )

  -- The checks before the loop.
  pub await_compile-SameFiles : Moves (SameFiles H) (await_compile H)
  unfolding await_compile
  await_compile-SameFiles = search (moves_rules, SameFiles-preorder)

  pub ensure_clean-SameFiles : Moves (SameFiles H) (ensure_clean_git_tree H)
  unfolding ensure_clean_git_tree
  ensure_clean-SameFiles = search (moves_rules, SameFiles-preorder)

  -- Where a step that keeps the files has ended.
  pub kept :
      {A : Type 0} (m : Run H A) {w t : World H} {r : Result A}
      → Moves (SameFiles H) m
      → m w ≡ (r, t)
      → SameFiles H w t
  kept {A} m {w} h e = subst (SameFiles H w) (ap (λ (p : Result A × World H). p.1) e) (h.moves w)

  -- Two steps that keep the files, one after the other.
  pub chain : {u v w : World H} → SameFiles H u v → SameFiles H v w → SameFiles H u w
  chain {u} {v} {w} p q = (SameFiles-preorder H).transitive u v w p q

  pub checked : (c : Bool) (m : String) → Moves (SameFiles H) (throw_if c m)
  checked c m = Moves-throw_if (SameFiles-preorder H) c m
