-- ===== src/Upgrades/Tests.antt =====
-- The update of the inbox on a small chain, whose state is the implementation behind the inbox's proxy.
use arb_bridge_peripherals.Base.{
  ◌≡◌, refl, Option, none, some, true, false, List, [], ◌∷◌, Text, codes, ok, effects, same_address,
  All,
}
use arb_bridge_peripherals.Base.Dict.{lookup, insert}
use arb_bridge_peripherals.Upgrades.Names.{
  ContractName, ContractName-discrete, UpgradeableType-discrete, proxy_type, is_beacon,
  is_beacon_owned_by_eoa, is_beacon_owned_by_rollup, is_rollup_user_facet, is_rollup_admin_facet,
  has_post_init_hook,
}
use arb_bridge_peripherals.Upgrades.Node.{
  Hre, World, Read, Slot, Call, Reply, boolean, QueuedUpdate, QueuedUpdates, CurrentDeployment,
  CurrentDeployments, send, ask_user,
}
use arb_bridge_peripherals.Upgrades.Files.{
  on_disk, disk_answers, write_queued, write_tmp, write_current, unlink_tmp, get_queued_updates,
  get_deployments, load_tmp_deployments, create_or_load_tmp_deployments_file,
}
use arb_bridge_peripherals.Upgrades.Signer.{
  includes, await_compile, ensure_clean_git_tree, first_signer, get_signer,
}
use arb_bridge_peripherals.Upgrades.Verify.{
  cut_to_address, pad_even, deployment_of, tracked, get_admin_from_proxy_storage, verify_proxy,
  verify_contract, verify_each, verify_current_implementations,
}
use arb_bridge_peripherals.Upgrades.Update.{
  upgrade_tx, new_deployment, set_deployment, upgrade_one, update_one, update_each,
  update_implementations,
}
use arb_bridge_peripherals.Upgrades.Verify.Matches.{Matches}
use arb_bridge_peripherals.Upgrades.Verify.Sound.{verify_current_implementations-Sound}
use arb_bridge_peripherals.Upgrades.Deploy.{deploy_logic}
use arb_bridge_peripherals.Upgrades.Tasks.{UpgradeTask, run_task}
use arb_bridge_peripherals.Upgrades.Tasks.Places.{places}
use arb_bridge_peripherals.Upgrades.Tasks.Reachable.{
  files, no_task, after, AllAtPlaces, Reaches-AllAtPlaces,
}
use arb_bridge_peripherals.Upgrades.Deploy.Filling.{Fills, deploy_logic-Filled}
use arb_bridge_peripherals.Upgrades.Update.Resume.{update_implementations-Stuck}
use arb_bridge_peripherals.Upgrades.Update.Verified.{update_implementations-Verified}

abbrev small_hre : Hre
small_hre = record {
  State = Text;
  read = λ r s. elim r as (λ _. Option Text) [
    | Read.storage_at a slot ↦ elim slot as (λ _. Option Text) [
      | Slot.admin_slot ↦ some (codes "0xad")
      | Slot.implementation_slot ↦ some s
    ]
    | _ ↦ some (codes "0xee")
  ];
  send = λ signer c s. elim c as (λ _. Option Text) [
    | Call.upgrade admin proxy impl ↦ some impl
    | _ ↦ some s
  ];
  deploy = λ signer n arg s.
      some (record { contract_address = codes "0xc0"; transaction_hash = codes "0xfe" }, s);
  impersonate = λ a s. some s;
  verifies = λ r s. true;
  is_fork = false;
  signers = codes "0xEE" ∷ [];
  compiles = true;
  git_diff = [];
  current_commit = codes "c0ffee";
  hexlify = λ t. some t;
  sort_updates = λ l. l;
  has_prompt = false;
}

abbrev inbox_entry : CurrentDeployment
inbox_entry = record {
  proxy_address = codes "0x1b";
  impl_address = codes "0xaa";
  impl_deployment_txn = codes "0xf1";
  impl_arbitrum_commit_hash = codes "c0";
  impl_build_info = [];
}

abbrev inbox_update : QueuedUpdate
inbox_update = record {
  address = codes "0xbb";
  deploy_txn = codes "0xf2";
  arbitrum_commit_hash = codes "c1";
  build_info = [];
}

abbrev current : CurrentDeployments
current = record {
  proxy_admin_address = codes "0xad";
  contracts = (ContractName.inbox, inbox_entry) ∷ [];
}

abbrev queue : QueuedUpdates
queue = (ContractName.inbox, inbox_update) ∷ []

abbrev world_with : Option CurrentDeployments → List Reply → World small_hre
world_with tmp replies = record {
  chain = codes "0xaa";
  queued_updates = some queue;
  current_deployment = some current;
  tmp_deployment = tmp;
  replies = replies;
  disk = [];
}

abbrev updated : World small_hre
updated = (update_implementations small_hre (world_with none [])).1

updated_lem : update_implementations small_hre (world_with none []) ≡ (ok true, updated)
unfolding update_implementations update_each update_one upgrade_one upgrade_tx new_deployment
    set_deployment verify_current_implementations verify_each verify_contract verify_proxy
    get_admin_from_proxy_storage tracked deployment_of pad_even cut_to_address get_signer
    first_signer ensure_clean_git_tree includes await_compile create_or_load_tmp_deployments_file
    load_tmp_deployments get_deployments get_queued_updates write_queued write_tmp write_current
    unlink_tmp on_disk disk_answers send ask_user has_post_init_hook is_rollup_admin_facet
    is_rollup_user_facet is_beacon is_beacon_owned_by_eoa is_beacon_owned_by_rollup proxy_type
    UpgradeableType-discrete ContractName-discrete same_address lookup insert effects
updated_lem = refl

update_implementations-Stuck_example : ¬ (
    update_implementations small_hre (world_with (some current) (boolean true ∷ []))
    ≡ (ok true, updated))
update_implementations-Stuck_example =
    update_implementations-Stuck small_hre current true []
      (world_with (some current) (boolean true ∷ [])) refl refl true updated

verified_lem :
    verify_current_implementations small_hre (world_with none []) ≡ (ok true, world_with none [])
unfolding set_deployment verify_current_implementations verify_each verify_contract verify_proxy
    get_admin_from_proxy_storage tracked deployment_of pad_even cut_to_address get_signer
    first_signer ensure_clean_git_tree includes await_compile create_or_load_tmp_deployments_file
    load_tmp_deployments get_deployments get_queued_updates write_queued write_tmp write_current
    unlink_tmp on_disk disk_answers send ask_user has_post_init_hook is_rollup_admin_facet
    is_rollup_user_facet is_beacon is_beacon_owned_by_eoa is_beacon_owned_by_rollup proxy_type
    UpgradeableType-discrete ContractName-discrete same_address lookup insert effects
verified_lem = refl

verify_current_implementations-Sound_example :
    (world_with none [] ≡ world_with none [])
    × (owner : Text) × (some (codes "0xee") ≡ some owner)
    × All
        (λ (x : ContractName × CurrentDeployment).
          Matches small_hre current owner (codes "0xaa") x.0 x.1)
        current.contracts
verify_current_implementations-Sound_example =
    verify_current_implementations-Sound small_hre (world_with none []) current refl refl
      verified_lem

update_implementations-Verified_example :
    (c : CurrentDeployments) × (owner : Text) × (updated.current_deployment ≡ some c)
    × (small_hre.read (Read.owner c.proxy_admin_address) updated.chain ≡ some owner)
    × All
        (λ (x : ContractName × CurrentDeployment). Matches small_hre c owner updated.chain x.0 x.1)
        c.contracts
update_implementations-Verified_example =
    update_implementations-Verified small_hre (λ n l h. h) current queue (world_with none []) refl
      refl refl updated_lem

deploy_logic-Filled_example :
    Fills small_hre
      (ContractName.bridge ∷ [])
      (world_with none [])
      (deploy_logic small_hre (ContractName.bridge ∷ []) (world_with none []))
deploy_logic-Filled_example =
    deploy_logic-Filled small_hre (ContractName.bridge ∷ []) (world_with none [])

abbrev upgraded : World small_hre
upgraded = (run_task small_hre UpgradeTask.trigger_upgrades (world_with none [])).1

abbrev cleaned : World small_hre
cleaned = (run_task small_hre UpgradeTask.remove_build_info upgraded).1

Reaches-AllAtPlaces_example : AllAtPlaces (places current) (files small_hre cleaned)
Reaches-AllAtPlaces_example =
    Reaches-AllAtPlaces (places current) (files small_hre (world_with none []))
      (files small_hre cleaned)
      (after small_hre upgraded UpgradeTask.remove_build_info
        (after small_hre (world_with none []) UpgradeTask.trigger_upgrades no_task))
      (refl, tt)
