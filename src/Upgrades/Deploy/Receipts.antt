-- ===== src/Upgrades/Deploy/Receipts.antt =====
-- The receipts of deployed logic contracts, and the entries of the queue that are made of them.
use arb_bridge_peripherals.Base.{ℕ, ◌≡◌, refl, Option, none, some, [], Text}
use arb_bridge_peripherals.Upgrades.Names.{ContractName}
use arb_bridge_peripherals.Upgrades.Node.{Hre, QueuedUpdate, Receipt}
use arb_bridge_peripherals.Upgrades.Deploy.{constructor_arg}

module _ (H : Hre) where
  -- The entry of a receipt, from the commit of this tree.
  abbrev pub entry_of : Receipt → QueuedUpdate
  entry_of r = record {
    address = r.contract_address;
    deploy_txn = r.transaction_hash;
    arbitrum_commit_hash = H.current_commit;
    build_info = [];
  }

  -- A receipt of a deployment of the contract, with 42161 for the rollup's constructor.
  abbrev pub IsReceipt : ContractName → Receipt → Type 0
  IsReceipt n r =
      (signer : Text) × (arg : Option ℕ) × (s : H.State) × (t : H.State) × (H.deploy signer n arg s
        ≡ some (r, t))
      × ((n ≡ ContractName.rollup) → arg ≡ some 42161)
      × (¬ (n ≡ ContractName.rollup) → arg ≡ none)

  abbrev pub Deploys : Text → ContractName → Option ℕ → Receipt → Type 0
  Deploys signer n arg r = (s : H.State) × (t : H.State) × (H.deploy signer n arg s ≡ some (r, t))

  constructor_arg-rollup :
      (n : ContractName)
      → ((n ≡ ContractName.rollup) → constructor_arg n ≡ some 42161)
        × (¬ (n ≡ ContractName.rollup) → constructor_arg n ≡ none)
  unfolding constructor_arg
  constructor_arg-rollup ContractName.l1_gateway_router = (λ e. cc, λ f. refl)
  constructor_arg-rollup ContractName.l1_erc20_gateway = (λ e. cc, λ f. refl)
  constructor_arg-rollup ContractName.l1_custom_gateway = (λ e. cc, λ f. refl)
  constructor_arg-rollup ContractName.l1_weth_gateway = (λ e. cc, λ f. refl)
  constructor_arg-rollup ContractName.l2_erc20_gateway = (λ e. cc, λ f. refl)
  constructor_arg-rollup ContractName.l2_gateway_router = (λ e. cc, λ f. refl)
  constructor_arg-rollup ContractName.l2_custom_gateway = (λ e. cc, λ f. refl)
  constructor_arg-rollup ContractName.l2_weth_gateway = (λ e. cc, λ f. refl)
  constructor_arg-rollup ContractName.standard_arb_erc20 = (λ e. cc, λ f. refl)
  constructor_arg-rollup ContractName.rollup = (λ e. refl, λ f. absurd (f refl))
  constructor_arg-rollup ContractName.rollup_admin_facet = (λ e. cc, λ f. refl)
  constructor_arg-rollup ContractName.rollup_user_facet = (λ e. cc, λ f. refl)
  constructor_arg-rollup ContractName.rollup_event_bridge = (λ e. cc, λ f. refl)
  constructor_arg-rollup ContractName.node = (λ e. cc, λ f. refl)
  constructor_arg-rollup ContractName.challenge = (λ e. cc, λ f. refl)
  constructor_arg-rollup ContractName.one_step_proof = (λ e. cc, λ f. refl)
  constructor_arg-rollup ContractName.one_step_proof2 = (λ e. cc, λ f. refl)
  constructor_arg-rollup ContractName.one_step_proof_hash = (λ e. cc, λ f. refl)
  constructor_arg-rollup ContractName.inbox = (λ e. cc, λ f. refl)
  constructor_arg-rollup ContractName.bridge = (λ e. cc, λ f. refl)
  constructor_arg-rollup ContractName.sequencer_inbox = (λ e. cc, λ f. refl)
  constructor_arg-rollup ContractName.outbox = (λ e. cc, λ f. refl)
  constructor_arg-rollup ContractName.old_outbox = (λ e. cc, λ f. refl)
  constructor_arg-rollup ContractName.outbox_entry = (λ e. cc, λ f. refl)

  pub Deploys-IsReceipt :
      (signer : Text) (n : ContractName) (r : Receipt)
      → Deploys signer n (constructor_arg n) r
      → IsReceipt n r
  Deploys-IsReceipt signer n r (s, t, e) =
      let (a, b) = constructor_arg-rollup n in (signer, constructor_arg n, s, t, e, a, b)
