-- ===== src/Upgrades/Files.antt =====
-- The JSON files of the tasks: `getQueuedUpdates`, `getDeployments`, `loadTmpDeployments`,
-- `createOrLoadTmpDeploymentsFile` and `removeBuildInfoFiles`.
pub mod Disk
use arb_bridge_peripherals.Base.{
  Bool, false, Option, none, some, List, [], ◌∷◌, codes, ◌===◌, pure, throw, exit, gets, ask, true,
  ok, err, failed, ◌>>=◌, ◌>>◌, if◌then◌else◌,
}
use arb_bridge_peripherals.Base.Dict.{Dict}
use arb_bridge_peripherals.Upgrades.Names.{ContractName}
use arb_bridge_peripherals.Upgrades.Node.{
  Hre, World, Run, QueuedUpdates, CurrentDeployment, CurrentDeployments, Reply, boolean, string,
  undefined, ask_user,
}

-- `reply === 'Yes'`
unfoldable pub is_yes : Reply → Bool
is_yes (boolean b) = false
is_yes (string t) = t === codes "Yes"
is_yes undefined = false

abbrev pub drop_build_info :
    Dict ContractName CurrentDeployment → Dict ContractName CurrentDeployment
drop_build_info [] = []
drop_build_info ((n, d) ∷ ds) = (n, record d { impl_build_info = [] }) ∷ drop_build_info ds

module _ (H : Hre) where
  unfoldable pub disk_answers : List Bool → (World H → World H) → Run H (Unit {0})
  disk_answers [] f w = (ok tt, f w)
  disk_answers (true ∷ rest) f w = (ok tt, f (record w { disk = rest }))
  disk_answers (false ∷ rest) f w = (err failed, record w { disk = rest })

  -- `writeFileSync` or `unlinkSync`, by what it does to the files
  unfoldable pub on_disk : (World H → World H) → Run H (Unit {0})
  unfolding disk_answers
  on_disk f w = disk_answers w.disk f w

  unfoldable pub write_queued : QueuedUpdates → Run H (Unit {0})
  write_queued q = on_disk (λ w. record w { queued_updates = some q })

  unfoldable pub write_tmp : CurrentDeployments → Run H (Unit {0})
  write_tmp d = on_disk (λ w. record w { tmp_deployment = some d })

  unfoldable pub write_current : CurrentDeployments → Run H (Unit {0})
  write_current d = on_disk (λ w. record w { current_deployment = some d })

  -- `unlinkSync` of the temporary file
  unfoldable pub unlink_tmp : Run H (Unit {0})
  unlink_tmp = on_disk (λ w. record w { tmp_deployment = none })

  -- A new network gets an empty queue.
  unfoldable pub get_queued_updates : Run H QueuedUpdates
  get_queued_updates = do
    file ← gets (λ w. w.queued_updates)
    elim file [ none ↦ write_queued [] >> pure [] | some q ↦ pure q ]

  unfoldable pub get_deployments : Run H CurrentDeployments
  get_deployments = do
    file ← gets (λ w. w.current_deployment)
    elim file [ none ↦ throw "No current deployments" | some d ↦ pure d ]

  unfoldable pub load_tmp_deployments : Run H (Option CurrentDeployments)
  load_tmp_deployments = do
    file ← gets (λ w. w.tmp_deployment)
    elim file [
      | none ↦ pure none
      | some d ↦ (do reply ← ask_user H; if is_yes reply then pure (some d) else exit)
    ]

  unfoldable pub create_or_load_tmp_deployments_file : Run H CurrentDeployments
  create_or_load_tmp_deployments_file = do
    current ← get_deployments
    val ← load_tmp_deployments
    elim val [ none ↦ write_tmp current >> pure current | some d ↦ pure d ]

  -- The global `prompt`: where the runtime has none, the call raises a `ReferenceError`.
  unfoldable pub global_prompt : Run H Reply
  global_prompt = do
    _ ← ask {A = Unit {0}} (λ w. if H.has_prompt then some tt else none)
    ask_user H

  unfoldable pub remove_build_info_files : Run H (Unit {0})
  remove_build_info_files = do
    reply ← global_prompt
    if is_yes reply
        then (do
          d ← get_deployments
          write_current (record d { contracts = drop_build_info d.contracts }))
        else exit
