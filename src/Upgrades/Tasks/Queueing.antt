-- ===== src/Upgrades/Tasks/Queueing.antt =====
-- The steps that leave the files of deployments alone; they may change the queue.
use arb_bridge_peripherals.Base.{
  ℕ, ◌≡◌, refl, ◌∙◌, Option, none, some, List, [], ◌∷◌, Text, IsPreorder, Moves, moves_rules,
  Moves-pure, Moves-bind, Moves-gets, pure, arith, if◌then◌else◌, ◌>>=◌, ◌>>◌,
}
use arb_bridge_peripherals.Base.Dict.{lookup}
use arb_bridge_peripherals.Upgrades.Names.{ContractName, ContractName-discrete}
use arb_bridge_peripherals.Upgrades.Node.{
  Hre, World, Run, QueuedUpdate, QueuedUpdates, ask_user, send, deploy, Call,
}
use arb_bridge_peripherals.Upgrades.Files.{get_queued_updates, write_queued, global_prompt}
use arb_bridge_peripherals.Upgrades.Files.Disk.{Moves-on_disk}
use arb_bridge_peripherals.Upgrades.Signer.{
  await_compile, ensure_clean_git_tree, first_signer, get_signer,
}
use arb_bridge_peripherals.Upgrades.Verify.{
  verify_current_implementations, get_admin_from_proxy_storage,
}
use arb_bridge_peripherals.Upgrades.Frames.{
  SameFiles, ask_user-SameFiles, send-SameFiles, verify-SameFiles, get_signer-SameFiles,
  first_signer-SameFiles,
}
use arb_bridge_peripherals.Upgrades.Deploy.{
  current_layer, deploy_one, deploy_or_skip, deploy_each, deploy_logic, is_falsy,
}
use arb_bridge_peripherals.Upgrades.Admin.{transfer_admin}

module _ (H : Hre) where
  pub record SameDeployments (w t : World H) : Type 0 where
    pub current : t.current_deployment ≡ w.current_deployment
    pub tmp : t.tmp_deployment ≡ w.tmp_deployment

  pub SameDeployments-preorder : IsPreorder SameDeployments
  SameDeployments-preorder = record {
    reflexive = λ s. record { current = refl; tmp = refl };
    transitive = λ s t u p q. record { current = q.current ∙ p.current; tmp = q.tmp ∙ p.tmp };
  }

  of_files : {A : Type 0} (m : Run H A) → Moves (SameFiles H) m → Moves SameDeployments m
  of_files m h = record {
    moves = λ s. record { current = (h.moves s).current; tmp = (h.moves s).tmp };
  }

  pub ask_user-SameDeployments : Moves SameDeployments (ask_user H)
  ask_user-SameDeployments = of_files (ask_user H) (ask_user-SameFiles H)

  pub send-SameDeployments : (a : Text) (c : Call) → Moves SameDeployments (send H a c)
  send-SameDeployments a c = of_files (send H a c) (send-SameFiles H a c)

  pub verify-SameDeployments : Moves SameDeployments (verify_current_implementations H)
  verify-SameDeployments = of_files (verify_current_implementations H) (verify-SameFiles H)

  pub get_signer-SameDeployments : (a : Text) → Moves SameDeployments (get_signer H a)
  get_signer-SameDeployments a = of_files (get_signer H a) (get_signer-SameFiles H a)

  first_signer-SameDeployments : Moves SameDeployments (first_signer H)
  first_signer-SameDeployments = of_files (first_signer H) (first_signer-SameFiles H)

  pub await_compile-SameDeployments : Moves SameDeployments (await_compile H)
  unfolding await_compile
  await_compile-SameDeployments = search (moves_rules, SameDeployments-preorder) depth 5

  pub clean_tree-SameDeployments : Moves SameDeployments (ensure_clean_git_tree H)
  unfolding ensure_clean_git_tree
  clean_tree-SameDeployments = search (moves_rules, SameDeployments-preorder) depth 5

  pub write_queued-SameDeployments : (q : QueuedUpdates) → Moves SameDeployments (write_queued H q)
  unfolding write_queued
  write_queued-SameDeployments q =
      Moves-on_disk H _ (λ w disk. record { current = refl; tmp = refl })
        (λ w disk. record { current = refl; tmp = refl })

  pub get_queued_updates-SameDeployments : Moves SameDeployments (get_queued_updates H)
  unfolding get_queued_updates
  get_queued_updates-SameDeployments =
      Moves-bind SameDeployments-preorder _ _ (Moves-gets SameDeployments-preorder _)
        λ file. at file
    where
      at :
          (file : Option QueuedUpdates)
          → Moves SameDeployments (elim file as (λ _. Run H QueuedUpdates) [
            | none ↦ write_queued H [] >> pure []
            | some q ↦ pure q
          ])
      at none = search (moves_rules, SameDeployments-preorder, write_queued-SameDeployments) depth 5
      at (some q) = Moves-pure SameDeployments-preorder q

  deploy-SameDeployments :
      (a : Text) (n : ContractName) (c : Option ℕ) → Moves SameDeployments (deploy H a n c)
  unfolding deploy
  deploy-SameDeployments a n c = record { moves = λ s. ground arith }

  deploy_one-SameDeployments :
      (a : Text) (n : ContractName) (q : QueuedUpdates) → Moves SameDeployments (deploy_one H a n q)
  unfolding deploy_one current_layer
  deploy_one-SameDeployments a n q =
      search
        (
          moves_rules, SameDeployments-preorder, deploy-SameDeployments,
          write_queued-SameDeployments,
        )
        depth 20

  deploy_or_skip-SameDeployments :
      (a : Text) (n : ContractName) (q : QueuedUpdates)
      → Moves SameDeployments (deploy_or_skip H a n q)
  unfolding deploy_or_skip
  deploy_or_skip-SameDeployments a n q = at (lookup ContractName-discrete n q)
    where
      at :
          (u : Option QueuedUpdate)
          → Moves SameDeployments (elim u as (λ _. Run H QueuedUpdates) [
            | none ↦ deploy_one H a n q
            | some _ ↦ (do
              reply ← ask_user H
              if is_falsy reply then pure q else deploy_one H a n q)
          ])
      at none = deploy_one-SameDeployments a n q
      at (some u) =
          search
            (
              moves_rules, SameDeployments-preorder, ask_user-SameDeployments,
              deploy_one-SameDeployments,
            )
            depth 10

  deploy_each-SameDeployments :
      (a : Text) (ns : List ContractName) (q : QueuedUpdates)
      → Moves SameDeployments (deploy_each H a ns q)
  unfolding deploy_each
  deploy_each-SameDeployments a [] q = Moves-pure SameDeployments-preorder tt
  deploy_each-SameDeployments a (n ∷ ns) q =
      Moves-bind SameDeployments-preorder _ _ (deploy_or_skip-SameDeployments a n q)
        λ q'. deploy_each-SameDeployments a ns q'

  -- A deployment of logic contracts changes the queue alone.
  pub deploy_logic-SameDeployments :
      (ns : List ContractName) → Moves SameDeployments (deploy_logic H ns)
  unfolding deploy_logic
  deploy_logic-SameDeployments ns =
      search
        (
          moves_rules, SameDeployments-preorder, await_compile-SameDeployments,
          clean_tree-SameDeployments, first_signer-SameDeployments,
          get_queued_updates-SameDeployments, deploy_each-SameDeployments,
        )
        depth 20

  pub transfer_admin-SameDeployments :
      (proxy new_admin : Text) → Moves SameDeployments (transfer_admin H proxy new_admin)
  unfolding transfer_admin get_admin_from_proxy_storage
  transfer_admin-SameDeployments proxy new_admin =
      search
        (
          moves_rules, SameDeployments-preorder, await_compile-SameDeployments,
          first_signer-SameDeployments, send-SameDeployments,
        )
        depth 20

  pub global_prompt-SameDeployments : Moves SameDeployments (global_prompt H)
  unfolding global_prompt
  global_prompt-SameDeployments =
      search (moves_rules, SameDeployments-preorder, ask_user-SameDeployments) depth 10
