-- ===== src/Upgrades/Update/Verified.antt =====
-- The verification that ends `updateImplementations`.
use arb_bridge_peripherals.Base.{All}
use arb_bridge_peripherals.Base.{◌≡◌, subst, true, none, some, List, Text, ok}
use arb_bridge_peripherals.Base.Dict.{contains}
use arb_bridge_peripherals.Upgrades.Names.{ContractName, ContractName-discrete}
use arb_bridge_peripherals.Upgrades.Node.{
  Hre, World, Read, QueuedUpdates, CurrentDeployment, CurrentDeployments,
}
use arb_bridge_peripherals.Upgrades.Verify.Matches.{Matches}
use arb_bridge_peripherals.Upgrades.Verify.Sound.{verify_current_implementations-Sound}
use arb_bridge_peripherals.Upgrades.Update.{update_implementations}
use arb_bridge_peripherals.Upgrades.Update.Results.{update_implementations-Applied}

module _ (H : Hre)
    (sorts : (n : ContractName) (l : List ContractName)
      → contains ContractName-discrete n l ≡ true
      → contains ContractName-discrete n (H.sort_updates l) ≡ true)
    (d : CurrentDeployments) (q : QueuedUpdates) where
  -- If the sort loses no contract, and an update that starts without a temporary file returns `true`,
  -- then in the state that it leaves the chain agrees with the file of current deployments, for every
  -- contract in it.
  pub update_implementations-Verified :
      (w : World H) {t : World H}
      → w.current_deployment ≡ some d
      → w.queued_updates ≡ some q
      → w.tmp_deployment ≡ none
      → update_implementations H w ≡ (ok true, t)
      → (c : CurrentDeployments) × (owner : Text) × (t.current_deployment ≡ some c)
        × (H.read (Read.owner c.proxy_admin_address) t.chain ≡ some owner)
        × All
            (λ (x : ContractName × CurrentDeployment). Matches H c owner t.chain x.0 x.1)
            c.contracts
  update_implementations-Verified w {t} current queued tmp run =
      let applied = update_implementations-Applied H sorts d q w current queued tmp run in
      let (v, file, free, ended) = applied.verified in
      let c = applied.progress.0 in
      let (same, owner, owns, all) = verify_current_implementations-Sound H v c file free ended in
      (
        c,
        owner,
        applied.current,
        subst (λ (y : World H). H.read (Read.owner c.proxy_admin_address) y.chain ≡ some owner) same
            owns,
        subst
            (λ (y : World H).
              All (λ (x : ContractName × CurrentDeployment). Matches H c owner y.chain x.0 x.1)
                c.contracts)
            same all,
      )
