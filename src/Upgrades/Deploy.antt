-- ===== src/Upgrades/Deploy.antt =====
-- `deployLogic` and `deployLogicAll`: new logic contracts, added to the queue one by one.
pub mod Receipts
pub mod Queue
pub mod Filling
use arb_bridge_peripherals.Base.{
  ℕ, Bool, true, false, not, Option, none, some, List, [], ◌∷◌, Text, length, ltb, ◌==◌, pure,
  throw_if, ◌>>=◌, ◌>>◌, if◌then◌else◌, codes,
}
use arb_bridge_peripherals.Base.Dict.{lookup, insert, keys}
use arb_bridge_peripherals.Upgrades.Names.{ContractName, ContractName-discrete, get_layer}
use arb_bridge_peripherals.Upgrades.Node.{
  Hre, Run, read, Read, deploy, ask_user, QueuedUpdate, QueuedUpdates, Receipt, Reply, boolean,
  string, undefined,
}
use arb_bridge_peripherals.Upgrades.Files.{get_queued_updates, get_deployments, write_queued}
use arb_bridge_peripherals.Upgrades.Signer.{await_compile, ensure_clean_git_tree, first_signer}

-- `!res.value`
unfoldable pub is_falsy : Reply → Bool
is_falsy (boolean b) = not b
is_falsy (string []) = true
is_falsy (string (c ∷ s)) = false
is_falsy undefined = true

-- `ROLLUP_CONSTRUCTOR_VAL`, the argument of the rollup's constructor
unfoldable pub constructor_arg : ContractName → Option ℕ
constructor_arg ContractName.rollup = some 42161
constructor_arg _ = none

-- `ArbSys`, which has code on a layer 2 alone
unfoldable pub arb_sys : Text
arb_sys = codes "0x0000000000000000000000000000000000000064"

unfoldable pub queued_of : Text → Receipt → QueuedUpdate
queued_of commit r = record {
  address = r.contract_address;
  deploy_txn = r.transaction_hash;
  arbitrum_commit_hash = commit;
  build_info = [];
}

module _ (H : Hre) where
  unfoldable pub current_layer : Run H ℕ
  current_layer = do code ← read H (Read.code arb_sys); pure (if ltb 2 (length code) then 2 else 1)

  -- Deploys a logic contract, and saves the queue.
  unfoldable pub deploy_one : Text → ContractName → QueuedUpdates → Run H QueuedUpdates
  deploy_one signer n queued = do
    layer ← current_layer
    throw_if (not (get_layer n == layer))
        "Warning: trying to deploy ${contractName} onto the wrong layer!"
    receipt ← deploy H signer n (constructor_arg n)
    let queued' = insert ContractName-discrete n (queued_of H.current_commit receipt) queued
    write_queued H queued'
    pure queued'

  -- A contract that is queued already is deployed again only if the user says so.
  unfoldable pub deploy_or_skip : Text → ContractName → QueuedUpdates → Run H QueuedUpdates
  deploy_or_skip signer n queued = elim (lookup ContractName-discrete n queued) [
    | none ↦ deploy_one signer n queued
    | some u ↦ (do
      reply ← ask_user H
      if is_falsy reply then pure queued else deploy_one signer n queued)
  ]

  unfoldable pub deploy_each : Text → List ContractName → QueuedUpdates → Run H (Unit {0})
  deploy_each signer [] queued = pure tt
  deploy_each signer (n ∷ ns) queued = do
    queued' ← deploy_or_skip signer n queued
    deploy_each signer ns queued'

  unfoldable pub deploy_logic : List ContractName → Run H (Unit {0})
  deploy_logic names = do
    await_compile H
    ensure_clean_git_tree H
    signer ← first_signer H
    queued ← get_queued_updates H
    deploy_each signer names queued

  unfoldable pub deploy_logic_all : Run H (Unit {0})
  deploy_logic_all = do
    await_compile H
    deployments ← get_deployments H
    deploy_logic (keys deployments.contracts)
