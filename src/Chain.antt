-- ===== src/Chain.antt =====
-- What the deployment scripts see of the parent and the child chain. The chains, ethers, the Arbitrum
-- SDK and the contracts' compiled code are not code of the scripts: they are the record `Network`,
-- which every script takes as an argument. A transaction's calldata is kept as the method and the
-- arguments that are encoded. Each step of a run is logged, so that theorems can speak of what a run
-- did, in its order.
pub mod NetworkTypes
pub mod Types
pub mod FeeToken
pub mod Logs
pub mod Reads
pub mod Growth
pub mod Scope
pub mod OnParent
pub mod Typed
pub mod Small
use arb_bridge_peripherals.Base.{
  ℕ, ◌+◌, String, Option, none, some, List, [], ◌∷◌, ◌++◌, Text, ◌===◌, ◌==◌, not, Bool, true,
  false, Script, Result, ok, err, Stop, failed, ask, gets, pure, modify, ◌>>=◌, ◌>>◌,
}
use NetworkTypes.{L1Network, L2Network, L1Deployment, L2Deployment}
use Types.{
  Layer, Getter, NumberGetter, Flag, Contract, Calldata, Tx, Retryable, GasParams, Status, Event,
  deployed, sent, wrote, submitted, registered, saved, NetworkFile,
}

pub record Network : Type 1 where
  pub State : Type 0
  -- view functions, `none` where the call fails
  pub read : Layer → Text → Getter → State → Option Text
  pub read_number : Layer → Text → NumberGetter → State → Option ℕ
  pub read_flag : Layer → Text → Flag → State → Option Bool
  -- `hasRole` of an upgrade executor: its address, the role, the account
  pub has_role : Layer → Text → Text → Text → State → Option Bool
  -- the owners in the creator's `OrbitTokenBridgeCreated` logs of an inbox, oldest first
  pub created_owners : Text → Text → State → Option (List Text)
  -- `ethers.utils.getAddress`, and `BigNumber.from` of a text
  pub checksum : Text → Option Text
  pub big_number : Text → Option ℕ
  -- `getNetwork()`'s `chainId` and `name`, `getGasPrice()`, `getBaseFee` of a provider
  pub chain_id : Layer → State → Option ℕ
  pub chain_name : Layer → State → Option Text
  pub gas_price : Layer → State → Option ℕ
  pub base_fee : State → Option ℕ
  -- a transaction that creates a contract, with the contract's address
  pub deploy : Layer → Text → Contract → State → Option (Text × State)
  -- a transaction and its receipt's hash; `none` where it is refused or reverts
  pub send : Layer → Text → Tx → State → Option (Text × State)
  -- `L1ToL2MessageGasEstimator.estimateAll`, and `estimateGas` of a call
  pub estimate_all : Retryable → ℕ → State → Option GasParams
  pub estimate_gas : Layer → Text → Tx → State → Option ℕ
  -- the gas parameters that `populateFunctionParams` finds for a transaction that depends on them
  pub populate_params : (GasParams → Tx) → State → Option GasParams
  -- the creator's `inboxToL1Deployment` and `inboxToL2Deployment`, by the creator and the inbox
  pub inbox_to_l1_deployment : Text → Text → State → Option L1Deployment
  pub inbox_to_l2_deployment : Text → Text → State → Option L2Deployment
  -- `getL1ToL2Messages` of a transaction's receipt: how many retryable tickets it has made, and the
  -- end of the i-th one's `waitForStatus`
  pub message_count : Text → State → Option ℕ
  pub wait_for_status : Text → ℕ → State → Option (Status × State)
  -- `waitForL2` of a deposit of the chain's own currency, by its transaction
  pub wait_for_deposit : Text → State → Option State
  -- the address of `new Wallet(key)`, and of the n-th `Wallet.createRandom()`
  -- whether the SDK takes the networks, or raises an error
  pub accepts_network : Option L1Network → L2Network → State → Bool
  pub wallet_address : Text → Option Text
  pub random_address : ℕ → Text

pub record World (N : Network) : Type 0 where
  pub chain : N.State
  pub draws : ℕ
  pub log : List Event

module _ (N : Network) where
  abbrev pub Run : Type 0 → Type 0
  Run A = Script (World N) A

  abbrev pub read : Layer → Text → Getter → Run Text
  read l a g = ask (λ w. N.read l a g w.chain)

  abbrev pub read_number : Layer → Text → NumberGetter → Run ℕ
  read_number l a g = ask (λ w. N.read_number l a g w.chain)

  abbrev pub read_flag : Layer → Text → Flag → Run Bool
  read_flag l a g = ask (λ w. N.read_flag l a g w.chain)

  -- `new Factory(deployer).deploy(…)` and `deployed()`
  unfoldable pub deploy : Layer → Text → Contract → Run Text
  deploy l from c w = elim (N.deploy l from c w.chain) [
    | none ↦ (err failed, w)
    | some (a, s) ↦ (ok a, record w { chain = s; log = w.log ++ (deployed l c a ∷ []) })
  ]

  -- A transaction and its `wait()`.
  unfoldable pub send : Layer → Text → Tx → Run Text
  send l from tx w = elim (N.send l from tx w.chain) [
    | none ↦ (err failed, w)
    | some (h, s) ↦ (ok h, record w { chain = s; log = w.log ++ (sent l from tx ∷ []) })
  ]

  unfoldable pub write_file : List Tx → Run (Unit {0})
  write_file txs w = (ok tt, record w { log = w.log ++ (wrote txs ∷ []) })

  unfoldable pub add_custom_network : Option L1Network → L2Network → Run (Unit {0})
  add_custom_network l1 l2 w = elim (N.accepts_network l1 l2 w.chain) [
    | false ↦ (err failed, w)
    | true ↦ (ok tt, record w { log = w.log ++ (registered l1 l2 ∷ []) })
  ]

  unfoldable pub save_networks : NetworkFile → Run (Unit {0})
  save_networks f w = (ok tt, record w { log = w.log ++ (saved f ∷ []) })

  -- The verifier's command, which runs by itself: its failure is printed and does not stop the script.
  unfoldable pub submit : String → Text → List Text → Run (Unit {0})
  submit name address args w =
      (ok tt, record w { log = w.log ++ (submitted name address args ∷ []) })

  unfoldable pub random_address : Run Text
  random_address w = (ok (N.random_address w.draws), record w { draws = w.draws + 1 })

  unfoldable pub wait_for_status : Text → ℕ → Run Status
  wait_for_status h i w = elim (N.wait_for_status h i w.chain) [
    | none ↦ (err failed, w)
    | some (r, s) ↦ (ok r, record w { chain = s })
  ]

  unfoldable pub wait_for_deposit : Text → Run (Unit {0})
  wait_for_deposit h w = elim (N.wait_for_deposit h w.chain) [
    | none ↦ (err failed, w)
    | some s ↦ (ok tt, record w { chain = s })
  ]

  -- `estimateAll(request, await getBaseFee(provider), provider)`
  abbrev pub estimate_all : Retryable → Run GasParams
  estimate_all r = do fee ← ask (λ w. N.base_fee w.chain); ask (λ w. N.estimate_all r fee w.chain)

  -- `(await contract.getter()) != expected`
  abbrev pub differs : Layer → Text → Getter → Text → Run Bool
  differs l a g expected = do value ← read l a g; pure (not (value === expected))

  abbrev pub differs_number : Layer → Text → NumberGetter → ℕ → Run Bool
  differs_number l a g expected = do value ← read_number l a g; pure (not (value == expected))
