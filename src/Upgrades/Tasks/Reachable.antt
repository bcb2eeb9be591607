-- ===== src/Upgrades/Tasks/Reachable.antt =====
-- Sequences of tasks, each with its own runtime, chain and queue; the files of deployments are what
-- one task leaves to the next.
use arb_bridge_peripherals.Base.{
  Option, List, Text, Result, Post, Moves, Post-then, Post-bind, Post-pure, moves_rules,
  Moves-for_each, Script, ◌>>◌, pure, ok, err,
}
use arb_bridge_peripherals.Upgrades.Names.{ContractName}
use arb_bridge_peripherals.Upgrades.Node.{Hre, World, CurrentDeployment, CurrentDeployments}
use arb_bridge_peripherals.Upgrades.Deploy.{deploy_logic_all}
use arb_bridge_peripherals.Upgrades.Tasks.{UpgradeTask, verify_one, verify_sources, run_task}
use arb_bridge_peripherals.Upgrades.Tasks.Queueing.{
  SameDeployments, SameDeployments-preorder, await_compile-SameDeployments, verify-SameDeployments,
  deploy_logic-SameDeployments, transfer_admin-SameDeployments,
}
use arb_bridge_peripherals.Upgrades.Tasks.Places.{
  AtPlaces, Placed, KeepsPlaces, kept, kept_then, get_deployments-places,
}
use arb_bridge_peripherals.Upgrades.Tasks.Steps.{
  update_implementations-places, remove_build_info-places,
}

-- The files of current and of temporary deployments.
abbrev pub Files : Type 0
Files = Option CurrentDeployments × Option CurrentDeployments

abbrev pub files : (H : Hre) → World H → Files
files H w = (w.current_deployment, w.tmp_deployment)

-- The files after any number of tasks.
pub data Reaches (start : Files) : Files → Type 1 where
  no_task : Reaches start start
  after :
      (H : Hre) (w : World H) (task : UpgradeTask)
      → Reaches start (files H w)
      → Reaches start (files H (run_task H task w).1)

abbrev pub AllAtPlaces : Text × List (ContractName × Text) → Files → Type 0
AllAtPlaces p f = AtPlaces p f.0 × AtPlaces p f.1

module _ (H : Hre) (p : Text × List (ContractName × Text)) where
  done_then :
      {A : Type 0} (m : Script (World H) A) (w : World H)
      → KeepsPlaces H p (λ _. Unit) m w
      → KeepsPlaces H p (λ _. Unit) (m >> pure tt) w
  done_then m w h = Post-then _ _ w h λ _ t k. Post-pure tt t k

  verify_one-SameDeployments :
      (x : ContractName × CurrentDeployment) → Moves (SameDeployments H) (verify_one H x)
  unfolding verify_one
  verify_one-SameDeployments (n, d) = search (moves_rules, SameDeployments-preorder) depth 10

  deploy_logic_all-places :
      (w : World H) → Placed H p w → KeepsPlaces H p (λ _. Unit) (deploy_logic_all H) w
  unfolding deploy_logic_all
  deploy_logic_all-places w k = kept_then H p _ _ w (await_compile-SameDeployments H) k λ t k₁.
      Post-bind _ _ t (get_deployments-places H p t k₁)
        λ d u (_, k₂). kept H p _ u (deploy_logic-SameDeployments H _) k₂

  verify_sources-places :
      (w : World H) → Placed H p w → KeepsPlaces H p (λ _. Unit) (verify_sources H) w
  unfolding verify_sources
  verify_sources-places w k = Post-bind _ _ w (get_deployments-places H p w k) λ d t (_, k₁).
      kept H p _ t
        (Moves-for_each (SameDeployments-preorder H) (verify_one H) d.contracts
          verify_one-SameDeployments)
        k₁

  run_task-places :
      (task : UpgradeTask) (w : World H)
      → Placed H p w
      → KeepsPlaces H p (λ _. Unit) (run_task H task) w
  unfolding run_task
  run_task-places (UpgradeTask.deploy_logic_one n) w k =
      kept H p _ w (deploy_logic-SameDeployments H _) k
  run_task-places UpgradeTask.deploy_every_logic w k = deploy_logic_all-places w k
  run_task-places UpgradeTask.trigger_upgrades w k =
      done_then _ w (update_implementations-places H p w k)
  run_task-places UpgradeTask.verify_deployments w k =
      done_then _ w (kept H p _ w (verify-SameDeployments H) k)
  run_task-places (UpgradeTask.transfer_owner proxy new_admin) w k =
      kept H p _ w (transfer_admin-SameDeployments H proxy new_admin) k
  run_task-places UpgradeTask.remove_build_info w k = remove_build_info-places H p w k
  run_task-places UpgradeTask.etherscan_verify w k = verify_sources-places w k

  run_task-Placed :
      (task : UpgradeTask) (w : World H) → Placed H p w → Placed H p (run_task H task w).1
  run_task-Placed task w k = at (run_task H task w) (run_task-places task w k).holds
    where
      at :
          (o : Result Unit × World H)
          → Post (λ _ t. Unit × Placed H p t) (Placed H p) o
          → Placed H p o.1
      at (ok a, t) h = h.1
      at (err e, t) h = h

-- Where the two files of deployments that are there have the same proxy admin and the same contracts
-- behind the same proxies in the same order, they still have these after any sequence of tasks, each
-- run by any user on any state of the chain, the queue and the terminal, and ended well or not.
pub Reaches-AllAtPlaces :
    (p : Text × List (ContractName × Text)) (f g : Files)
    → Reaches f g
    → AllAtPlaces p f
    → AllAtPlaces p g
Reaches-AllAtPlaces p f _ no_task h = h
Reaches-AllAtPlaces p f _ (after H w task r) h =
    let (current, tmp) = Reaches-AllAtPlaces p f (files H w) r h in
    let k = run_task-Placed H p task w (record { current = current; tmp = tmp }) in
    (k.current, k.tmp)
