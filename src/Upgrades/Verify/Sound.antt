-- ===== src/Upgrades/Verify/Sound.antt =====
-- What a verification that succeeds has seen on the chain.
use arb_bridge_peripherals.Base.{
  ◌≡◌, refl, sym, ap, subst, ◌∙◌, true, none, some, Text, ok, bind-eq-ok, then-eq-ok, bind-ok,
  ask-eq-ok, All, effects, arith,
}
use arb_bridge_peripherals.Upgrades.Names.{ContractName}
use arb_bridge_peripherals.Upgrades.Node.{
  Hre, World, read, Read, CurrentDeployment, CurrentDeployments,
}
use arb_bridge_peripherals.Upgrades.Files.{get_deployments, load_tmp_deployments}
use arb_bridge_peripherals.Upgrades.Signer.{await_compile}
use arb_bridge_peripherals.Upgrades.Verify.{verify_current_implementations}
use arb_bridge_peripherals.Upgrades.Verify.Matches.{Matches}
use arb_bridge_peripherals.Upgrades.Verify.Seen.{each_lem}

module _ (H : Hre) where
  compiled : (v : World H) {u : Unit {0}} {x : World H} → await_compile H v ≡ (ok u, x) → v ≡ x
  unfolding await_compile effects
  compiled v g = ground arith

  file_lem :
      (c : CurrentDeployments) (v : World H)
      → v.current_deployment ≡ some c
      → get_deployments H v ≡ (ok c, v)
  unfolding get_deployments effects
  file_lem c v g = ground arith

  no_tmp : (v : World H) → v.tmp_deployment ≡ none → load_tmp_deployments H v ≡ (ok none, v)
  unfolding load_tmp_deployments effects
  no_tmp v g = ground arith

  -- A verification without a temporary file that succeeds has changed nothing, and has seen on the chain,
  -- for every contract of the current file, what the file says of it: the implementation and the owner
  -- of its beacon, its facet of the rollup, or the admin and the implementation in its proxy's storage.
  pub verify_current_implementations-Sound :
      (w : World H) (c : CurrentDeployments) {t : World H}
      → w.current_deployment ≡ some c
      → w.tmp_deployment ≡ none
      → verify_current_implementations H w ≡ (ok true, t)
      → (w ≡ t)
        × (owner : Text) × (H.read (Read.owner c.proxy_admin_address) w.chain ≡ some owner)
        × All
            (λ (x : ContractName × CurrentDeployment). Matches H c owner w.chain x.0 x.1)
            c.contracts
  unfolding verify_current_implementations
  verify_current_implementations-Sound w c {t} current tmp h =
      let (_, w₁, e₁, h₁) = then-eq-ok (await_compile H) _ w h in
      let s₁ = compiled w e₁ in
      let h₂ =
        sym (
          bind-ok (get_deployments H) _ w₁ c w₁
            (file_lem c w₁ (ap (λ (y : World H). y.current_deployment) (sym s₁) ∙ current)))
        ∙ h₁ in
      let h₃ =
        sym (
          bind-ok (load_tmp_deployments H) _ w₁ none w₁
            (no_tmp w₁ (ap (λ (y : World H). y.tmp_deployment) (sym s₁) ∙ tmp)))
        ∙ h₂ in
      let (owner, w₄, e₄, h₄) = bind-eq-ok (read H (Read.owner c.proxy_admin_address)) _ w₁ h₃ in
      let (a, s₄) = ask-eq-ok _ w₁ e₄ in
      let (s₅, seen) = each_lem H c owner c.contracts true w₄ h₄ in
      (
        s₁ ∙ s₄ ∙ s₅,
        owner,
        subst (λ (y : World H). H.read (Read.owner c.proxy_admin_address) y.chain ≡ some owner)
            (sym s₁) a,
        subst
            (λ (y : World H).
              All (λ (x : ContractName × CurrentDeployment). Matches H c owner y.chain x.0 x.1)
                c.contracts)
            (sym (s₁ ∙ s₄)) (seen refl).1,
      )
