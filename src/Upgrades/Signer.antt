-- ===== src/Upgrades/Signer.antt =====
-- The checks before a task: `compileTask`, `ensureCleanGitTree`, and the choice of a signer.
use arb_bridge_peripherals.Base.{
  Bool, true, false, none, some, [], ◌∷◌, ◌&&◌, ◌||◌, ◌==◌, Text, codes, pure, throw, throw_if, ask,
  ◌>>◌, if◌then◌else◌, any, failed, ok, err,
}
use arb_bridge_peripherals.Upgrades.Node.{Hre, Run}

abbrev pub starts : Text → Text → Bool
starts [] s = true
starts (c ∷ p) [] = false
starts (c ∷ p) (d ∷ s) = c == d && starts p s

-- `line.includes(part)`
unfoldable pub includes : Text → Text → Bool
includes part [] = starts part []
includes part (c ∷ s) = starts part (c ∷ s) || includes part s

module _ (H : Hre) where
  unfoldable pub await_compile : Run H (Unit {0})
  await_compile = ask (λ w. if H.compiles then some tt else none)

  unfoldable pub ensure_clean_git_tree : Run H (Unit {0})
  ensure_clean_git_tree =
      throw_if (any (includes (codes "contracts")) H.git_diff)
        "You have local changes to ${found}. Commit/stash/ get rid of them"

  unfoldable pub first_signer : Run H Text
  first_signer = elim H.signers [
    | [] ↦ throw "No signer - make sure a key is properly set (check hardhat config)"
    | s ∷ ss ↦ pure s
  ]

  unfoldable pub impersonate : Text → Run H (Unit {0})
  impersonate owner w = elim (H.impersonate owner w.chain) [
    | none ↦ (err failed, w)
    | some s ↦ (ok tt, record w { chain = s })
  ]

  -- On a fork the owner of the proxy admin signs.
  unfoldable pub get_signer : Text → Run H Text
  get_signer owner = if H.is_fork then impersonate owner >> pure owner else first_signer
