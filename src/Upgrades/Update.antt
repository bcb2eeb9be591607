-- ===== src/Upgrades/Update.antt =====
-- `updateImplementations`: every queued logic contract is put behind its proxy, and both files are
-- written after each of them.
pub mod Progress
pub mod Calls
pub mod Rounds
pub mod Loop
pub mod Refinement
pub mod Steps
pub mod Results
pub mod Verified
pub mod Resume
use arb_bridge_peripherals.Base.{
  ℕ, Bool, true, false, not, ◌||◌, Option, none, some, List, [], ◌∷◌, Text, length, ◌==◌,
  same_address, codes, pure, throw_if, ask, ◌>>=◌, ◌>>◌, if◌then◌else◌,
}
use arb_bridge_peripherals.Base.Dict.{Dict, lookup, insert, erase, keys}
use arb_bridge_peripherals.Upgrades.Names.{
  ContractName, ContractName-discrete, is_beacon_owned_by_eoa, is_beacon_owned_by_rollup,
  is_rollup_user_facet, is_rollup_admin_facet, has_post_init_hook,
}
use arb_bridge_peripherals.Upgrades.Node.{
  Hre, World, Run, read, Read, send, Call, upgrade_to, upgrade_beacon, set_facets, upgrade_and_call,
  upgrade, QueuedUpdate, QueuedUpdates, CurrentDeployment, CurrentDeployments,
}
use arb_bridge_peripherals.Upgrades.Files.{
  get_queued_updates, get_deployments, create_or_load_tmp_deployments_file, write_queued, write_tmp,
  write_current, unlink_tmp,
}
use arb_bridge_peripherals.Upgrades.Signer.{await_compile, ensure_clean_git_tree, get_signer}
use arb_bridge_peripherals.Upgrades.Verify.{deployment_of, verify_current_implementations}

-- `POST_UPGRADE_INIT_SIG`
unfoldable pub post_upgrade_init_sig : Text
post_upgrade_init_sig = codes "0x95fcea78"

abbrev pub impl_of : CurrentDeployments → ContractName → Option Text
impl_of d n = elim (deployment_of d n) [ none ↦ none | some e ↦ some e.impl_address ]

abbrev pub proxy_of : CurrentDeployments → ContractName → Option Text
proxy_of d n = elim (deployment_of d n) [ none ↦ none | some e ↦ some e.proxy_address ]

-- The facets after the update; the one that is not updated is that of the temporary file.
unfoldable pub facets_call : CurrentDeployments → ContractName → QueuedUpdate → Option Call
facets_call tmp n q =
    elim (if is_rollup_user_facet n
      then some q.address
      else impl_of tmp ContractName.rollup_user_facet) [
        | none ↦ none
        | some user ↦
            elim (if is_rollup_admin_facet n
              then some q.address
              else impl_of tmp ContractName.rollup_admin_facet) [
                | none ↦ none
                | some admin ↦ elim (proxy_of tmp ContractName.rollup) [
                  | none ↦ none
                  | some rollup ↦ some (set_facets rollup admin user)
                ]
              ]
      ]

-- The transaction for a contract; `none` where an entry that it needs is missing.
unfoldable pub upgrade_tx :
    CurrentDeployments → ContractName → QueuedUpdate → CurrentDeployment → Option Call
upgrade_tx tmp n q d =
    if is_beacon_owned_by_eoa n
    then some (upgrade_to d.proxy_address q.address)
    else if is_beacon_owned_by_rollup n
    then elim (proxy_of tmp ContractName.rollup) [
      | none ↦ none
      | some rollup ↦ some (upgrade_beacon rollup d.proxy_address q.address)
    ]
    else if is_rollup_admin_facet n || is_rollup_user_facet n
    then facets_call tmp n q
    else if has_post_init_hook n
    then some
        (upgrade_and_call tmp.proxy_admin_address d.proxy_address q.address post_upgrade_init_sig)
    else some (upgrade tmp.proxy_admin_address d.proxy_address q.address)

-- The entry after the update.
unfoldable pub new_deployment : CurrentDeployment → QueuedUpdate → CurrentDeployment
new_deployment d q = record {
  proxy_address = d.proxy_address;
  impl_address = q.address;
  impl_deployment_txn = q.deploy_txn;
  impl_arbitrum_commit_hash = q.arbitrum_commit_hash;
  impl_build_info = [];
}

unfoldable pub set_deployment :
    CurrentDeployments → ContractName → CurrentDeployment → CurrentDeployments
set_deployment tmp n d = record tmp { contracts = insert ContractName-discrete n d tmp.contracts }

-- The deployments and the queue that the loop carries.
abbrev pub Progress : Type 0
Progress = CurrentDeployments × QueuedUpdates

module _ (H : Hre) where
  -- Upgrades a contract that has an entry, and saves both files.
  unfoldable pub upgrade_one : Text → ContractName → CurrentDeployment → Progress → Run H Progress
  upgrade_one signer n d (tmp, queued) = do
    q ← ask (λ w. lookup ContractName-discrete n queued)
    call ← ask (λ w. upgrade_tx tmp n q d)
    send H signer call
    let tmp' = set_deployment tmp n (new_deployment d q)
    write_tmp H tmp'
    let queued' = erase ContractName-discrete n queued
    write_queued H queued'
    pure (tmp', queued')

  -- A queued contract without an entry is passed over.
  unfoldable pub update_one : Text → ContractName → Progress → Run H Progress
  update_one signer n p = elim (deployment_of p.0 n) [
    | none ↦ pure p
    | some d ↦ upgrade_one signer n d p
  ]

  unfoldable pub update_each : Text → List ContractName → Progress → Run H Progress
  update_each signer [] p = pure p
  update_each signer (n ∷ ns) p = do p' ← update_one signer n p; update_each signer ns p'

  unfoldable pub update_implementations : Run H Bool
  update_implementations = do
    await_compile H
    ensure_clean_git_tree H
    verified ← verify_current_implementations H
    throw_if (not verified) "Verification of current implementations failed; cancelling update"
    queued ← get_queued_updates H
    get_deployments H
    tmp ← create_or_load_tmp_deployments_file H
    owner ← read H (Read.owner tmp.proxy_admin_address)
    signer ← get_signer H owner
    throw_if (not (same_address owner signer))
        "Signer address ${signer.address} != ProxyAdmin owner ${proxyAdminOwner}"
    throw_if (length queued == 0)
        "No logic implementations to upgrade to for current network / package"
    p ← update_each signer (H.sort_updates (keys queued)) (tmp, queued)
    write_current H p.0
    unlink_tmp H
    verify_current_implementations H
