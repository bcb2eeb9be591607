-- ===== src/Upgrades/Node.antt =====
-- The deployment records, and what the tasks see of Hardhat, of the chain and of the terminal. None of
-- these is code of the repository: they are the record `Hre`, an argument of every task.
use arb_bridge_peripherals.Base.{
  ℕ, Bool, Option, none, some, List, [], ◌∷◌, Text, Script, ok, err, failed, ask,
}
use arb_bridge_peripherals.Base.Dict.{Dict}
use arb_bridge_peripherals.Upgrades.Names.{ContractName}

pub record QueuedUpdate : Type 0 where
  pub address : Text
  pub deploy_txn : Text
  pub arbitrum_commit_hash : Text
  pub build_info : Text

pub record CurrentDeployment : Type 0 where
  pub proxy_address : Text
  pub impl_address : Text
  pub impl_deployment_txn : Text
  pub impl_arbitrum_commit_hash : Text
  pub impl_build_info : Text

abbrev pub QueuedUpdates : Type 0
QueuedUpdates = Dict ContractName QueuedUpdate

pub record CurrentDeployments : Type 0 where
  pub proxy_admin_address : Text
  pub contracts : Dict ContractName CurrentDeployment

-- `ADMIN_SLOT` and `IMPLEMENTATION_SLOT`
pub data Slot : Type 0 where
  admin_slot implementation_slot : Slot

-- What is read from the chain, by the address asked.
pub data Read : Type 0 where
  owner implementation user_facet admin_facet code : Text → Read
  storage_at : Text → Slot → Read

-- The transactions of the tasks; the first address is the contract that is called.
pub data Call : Type 0 where
  -- a beacon's `upgradeTo`
  upgrade_to : Text → Text → Call
  -- the rollup's `upgradeBeacon` and `setFacets`
  upgrade_beacon : Text → Text → Text → Call
  set_facets : Text → Text → Text → Call
  -- the proxy admin's `upgradeAndCall`, `upgrade` and `changeProxyAdmin`
  upgrade_and_call : Text → Text → Text → Text → Call
  upgrade : Text → Text → Text → Call
  change_proxy_admin : Text → Text → Text → Call
  transfer_ownership : Text → Text → Call

-- A request to the task `verify:verify`: an address, and for the rollup the argument of its constructor
-- and the contract's name in the sources.
pub data VerifyRequest : Type 0 where
  by_address : Text → VerifyRequest
  by_contract : Text → ℕ → Text → VerifyRequest

-- What a prompt gives back.
pub data Reply : Type 0 where
  boolean : Bool → Reply
  string : Text → Reply
  undefined : Reply

pub record Receipt : Type 0 where
  pub contract_address : Text
  pub transaction_hash : Text

pub record Hre : Type 1 where
  pub State : Type 0
  pub read : Read → State → Option Text
  pub send : Text → Call → State → Option State
  -- a new logic contract, with the argument of the rollup's constructor
  pub deploy : Text → ContractName → Option ℕ → State → Option (Receipt × State)
  -- `hardhat_impersonateAccount` and `hardhat_setBalance` on a forked network
  pub impersonate : Text → State → Option State
  -- whether `verify:verify` ends well
  pub verifies : VerifyRequest → State → Bool
  pub is_fork : Bool
  pub signers : List Text
  -- whether `hre.run('compile')` ends well
  pub compiles : Bool
  -- the lines of `git diff-index HEAD --`, and `git rev-parse HEAD`
  pub git_diff : List Text
  pub current_commit : Text
  -- `ethers.utils.hexlify` of a text
  pub hexlify : Text → Option Text
  -- the order that `contractsToUpdate.sort` gives with its comparison
  pub sort_updates : List ContractName → List ContractName
  -- whether the runtime has a global `prompt`
  pub has_prompt : Bool

-- The files of the current network, the replies that the prompts will give, and what the disk will do.
-- A call that the disk refuses leaves the file as it was.
pub record World (H : Hre) : Type 0 where
  pub chain : H.State
  pub queued_updates : Option QueuedUpdates
  pub current_deployment : Option CurrentDeployments
  pub tmp_deployment : Option CurrentDeployments
  pub replies : List Reply
  -- whether the next calls of `writeFileSync` and `unlinkSync` end well; those after the list do
  pub disk : List Bool

module _ (H : Hre) where
  abbrev pub Run : Type 0 → Type 0
  Run A = Script (World H) A

  abbrev pub read : Read → Run Text
  read r = ask (λ w. H.read r w.chain)

  unfoldable pub send : Text → Call → Run (Unit {0})
  send signer c w = elim (H.send signer c w.chain) [
    | none ↦ (err failed, w)
    | some s ↦ (ok tt, record w { chain = s })
  ]

  unfoldable pub deploy : Text → ContractName → Option ℕ → Run Receipt
  deploy signer n arg w = elim (H.deploy signer n arg w.chain) [
    | none ↦ (err failed, w)
    | some (r, s) ↦ (ok r, record w { chain = s })
  ]

  -- A prompt of the package `prompts`; a closed terminal answers `undefined`.
  unfoldable pub ask_user : Run Reply
  ask_user w = elim w.replies [
    | [] ↦ (ok undefined, w)
    | r ∷ rs ↦ (ok r, record w { replies = rs })
  ]
