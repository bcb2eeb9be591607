-- ===== src/Upgrades/Verify/Matches.antt =====
-- What the deployment file says of a contract, as a statement about the chain.
use arb_bridge_peripherals.Base.{
  ◌≡◌, Bool, true, false, ◌||◌, some, Text, same_address, if◌then◌else◌,
}
use arb_bridge_peripherals.Upgrades.Names.{
  ContractName, is_beacon, is_beacon_owned_by_rollup, is_rollup_user_facet, is_rollup_admin_facet,
}
use arb_bridge_peripherals.Upgrades.Node.{
  Hre, Read, storage_at, admin_slot, implementation_slot, CurrentDeployment, CurrentDeployments,
}
use arb_bridge_peripherals.Upgrades.Verify.{cut_to_address, pad_even, deployment_of}

module _ (H : Hre) (c : CurrentDeployments) (owner : Text) (s : H.State) where
  -- A chain's answer is an address, up to the case of its letters.
  abbrev pub Answers : Read → Text → Type 0
  Answers r x = (a : Text) × (H.read r s ≡ some a) × (same_address a x ≡ true)

  -- A beacon has the implementation of its entry, and its owner is the rollup or that of the proxy admin.
  abbrev pub BeaconMatches : Bool → CurrentDeployment → Type 0
  BeaconMatches by_rollup d =
      Answers (Read.implementation d.proxy_address) d.impl_address × elim by_rollup [
        | true ↦
            (r : CurrentDeployment) × (deployment_of c ContractName.rollup ≡ some r)
            × Answers (Read.owner d.proxy_address) r.proxy_address
        | false ↦ Answers (Read.owner d.proxy_address) owner
      ]

  -- The rollup has the facet.
  abbrev pub FacetMatches : Bool → CurrentDeployment → Type 0
  FacetMatches user d =
      (r : CurrentDeployment) × (deployment_of c ContractName.rollup ≡ some r)
      × Answers (if user then Read.user_facet r.proxy_address else Read.admin_facet r.proxy_address)
          d.impl_address

  -- A proxy's storage has the proxy admin and the implementation.
  abbrev pub ProxyMatches : CurrentDeployment → Type 0
  ProxyMatches d =
      ((a : Text) × (H.read (storage_at d.proxy_address admin_slot) s ≡ some a)
        × (same_address (cut_to_address a) c.proxy_admin_address ≡ true))
      × ((raw word : Text) × (H.read (storage_at d.proxy_address implementation_slot) s ≡ some raw)
          × (H.hexlify (pad_even raw) ≡ some word)
          × (same_address (cut_to_address word) d.impl_address ≡ true))

  abbrev pub Matches : ContractName → CurrentDeployment → Type 0
  Matches n d = elim (is_beacon n) [
    | true ↦ BeaconMatches (is_beacon_owned_by_rollup n) d
    | false ↦ elim (is_rollup_admin_facet n || is_rollup_user_facet n) [
      | true ↦ FacetMatches (is_rollup_user_facet n) d
      | false ↦ ProxyMatches d
    ]
  ]
