-- ===== src/Upgrades/Tasks.antt =====
-- The tasks as Hardhat runs them, tasks/peripheralsTasks.ts, and `verifyDeployments` of tasks/index.ts.
pub mod Queueing
pub mod Places
pub mod Steps
pub mod Reachable
use arb_bridge_peripherals.Base.{
  ℕ, Bool, List, [], ◌∷◌, Text, some, none, codes, pure, ask, catch, for_each, ◌>>=◌, ◌>>◌,
  if◌then◌else◌,
}
use arb_bridge_peripherals.Upgrades.Names.{ContractName}
use arb_bridge_peripherals.Upgrades.Node.{
  Hre, Run, CurrentDeployment, VerifyRequest, by_address, by_contract,
}
use arb_bridge_peripherals.Upgrades.Files.{get_deployments, remove_build_info_files}
use arb_bridge_peripherals.Upgrades.Verify.{verify_current_implementations}
use arb_bridge_peripherals.Upgrades.Deploy.{deploy_logic, deploy_logic_all}
use arb_bridge_peripherals.Upgrades.Update.{update_implementations}
use arb_bridge_peripherals.Upgrades.Admin.{transfer_admin}

pub data UpgradeTask : Type 0 where
  deploy_logic_one : ContractName → UpgradeTask
  deploy_every_logic trigger_upgrades verify_deployments : UpgradeTask
  -- the proxy and the new admin
  transfer_owner : Text → Text → UpgradeTask
  remove_build_info etherscan_verify : UpgradeTask

unfoldable pub verify_request : ContractName → CurrentDeployment → VerifyRequest
verify_request ContractName.rollup d =
    by_contract d.impl_address 42161 (codes "contracts/rollup/Rollup.sol:Rollup")
verify_request _ d = by_address d.impl_address

module _ (H : Hre) where
  -- A failure is printed, and the next contract follows.
  unfoldable pub verify_one : ContractName × CurrentDeployment → Run H (Unit {0})
  verify_one (n, d) =
      catch (ask (λ w. if H.verifies (verify_request n d) w.chain then some tt else none)) (pure tt)

  -- `verifyDeployments`, which asks an explorer; the task `verify-deployments` is another one.
  unfoldable pub verify_sources : Run H (Unit {0})
  unfolding verify_one
  verify_sources = do d ← get_deployments H; for_each verify_one d.contracts

  unfoldable pub run_task : UpgradeTask → Run H (Unit {0})
  unfolding verify_sources
  run_task (UpgradeTask.deploy_logic_one n) = deploy_logic H (n ∷ [])
  run_task UpgradeTask.deploy_every_logic = deploy_logic_all H
  run_task UpgradeTask.trigger_upgrades = update_implementations H >> pure tt
  run_task UpgradeTask.verify_deployments = verify_current_implementations H >> pure tt
  run_task (UpgradeTask.transfer_owner proxy new_admin) = transfer_admin H proxy new_admin
  run_task UpgradeTask.remove_build_info = remove_build_info_files H
  run_task UpgradeTask.etherscan_verify = verify_sources
