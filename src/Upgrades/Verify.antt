-- ===== src/Upgrades/Verify.antt =====
-- `getAdminFromProxyStorage` and `verifyCurrentImplementations`.
pub mod Matches
pub mod Seen
pub mod Sound
use arb_bridge_peripherals.Base.{
  ◌-◌, ◌%◌, Bool, true, ◌&&◌, ◌||◌, Option, none, some, [], ◌∷◌, ◌++◌, Text, codes, length, take,
  drop, ltb, ◌==◌, same_address, pure, ask, ◌>>=◌, ◌>>◌, if◌then◌else◌,
}
use arb_bridge_peripherals.Base.Dict.{Dict, lookup}
use arb_bridge_peripherals.Upgrades.Names.{
  ContractName, ContractName-discrete, is_beacon, is_beacon_owned_by_rollup, is_rollup_user_facet,
  is_rollup_admin_facet,
}
use arb_bridge_peripherals.Upgrades.Node.{
  Hre, Run, read, Read, storage_at, admin_slot, implementation_slot, CurrentDeployment,
  CurrentDeployments,
}
use arb_bridge_peripherals.Upgrades.Files.{get_deployments, load_tmp_deployments}
use arb_bridge_peripherals.Upgrades.Signer.{await_compile}

-- A storage word is cut to the last 40 digits, those of the address.
unfoldable pub cut_to_address : Text → Text
cut_to_address word =
    if ltb 42 (length word) then codes "0x" ++ take 40 (drop (length word - 40) word) else word

-- An odd number of digits gets a zero in front.
unfoldable pub pad_even : Text → Text
pad_even raw = if length raw % 2 == 1 then codes "0x0" ++ drop 2 raw else raw

unfoldable pub deployment_of : CurrentDeployments → ContractName → Option CurrentDeployment
unfolding ContractName-discrete
deployment_of d n = lookup ContractName-discrete n d.contracts

-- The temporary file's entry, if there is one.
unfoldable pub tracked :
    Option CurrentDeployments → ContractName → CurrentDeployment → CurrentDeployment
tracked tmp n d = elim tmp [
  | none ↦ d
  | some t ↦ elim (deployment_of t n) [ none ↦ d | some e ↦ e ]
]

module _ (H : Hre) where
  unfoldable pub get_admin_from_proxy_storage : Text → Run H Text
  get_admin_from_proxy_storage proxy = do
    admin ← read H (storage_at proxy admin_slot)
    pure (cut_to_address admin)

  unfoldable pub rollup_proxy : CurrentDeployments → Run H Text
  rollup_proxy d = do
    rollup ← ask (λ w. deployment_of d ContractName.rollup)
    pure rollup.proxy_address

  unfoldable pub verify_beacon :
      CurrentDeployments → Text → ContractName → CurrentDeployment → Run H Bool
  verify_beacon deployments proxy_admin_owner n d = do
    implementation ← read H (Read.implementation d.proxy_address)
    beacon_owner ← read H (Read.owner d.proxy_address)
    expected ←
        (if is_beacon_owned_by_rollup n then rollup_proxy deployments else pure proxy_admin_owner)
    pure (same_address implementation d.impl_address && same_address beacon_owner expected)

  unfoldable pub verify_facet : CurrentDeployments → ContractName → CurrentDeployment → Run H Bool
  verify_facet deployments n d = do
    rollup ← rollup_proxy deployments
    facet ←
        read H (if is_rollup_user_facet n then Read.user_facet rollup else Read.admin_facet rollup)
    pure (same_address facet d.impl_address)

  unfoldable pub verify_proxy : CurrentDeployments → CurrentDeployment → Run H Bool
  verify_proxy deployments d = do
    admin ← get_admin_from_proxy_storage d.proxy_address
    raw ← read H (storage_at d.proxy_address implementation_slot)
    word ← ask (λ w. H.hexlify (pad_even raw))
    pure (
        same_address admin deployments.proxy_admin_address
        && same_address (cut_to_address word) d.impl_address)

  unfoldable pub verify_contract :
      CurrentDeployments → Text → ContractName → CurrentDeployment → Run H Bool
  verify_contract deployments proxy_admin_owner n d =
      if is_beacon n
      then verify_beacon deployments proxy_admin_owner n d
      else if is_rollup_admin_facet n || is_rollup_user_facet n
      then verify_facet deployments n d
      else verify_proxy deployments d

  -- The loop over the contracts of the current file.
  unfoldable pub verify_each :
      CurrentDeployments
      → Option CurrentDeployments
      → Text
      → Dict ContractName CurrentDeployment
      → Bool
      → Run H Bool
  verify_each deployments tmp owner [] success = pure success
  verify_each deployments tmp owner ((n, d) ∷ rest) success = do
    good ← verify_contract deployments owner n (tracked tmp n d)
    verify_each deployments tmp owner rest (success && good)

  unfoldable pub verify_current_implementations : Run H Bool
  verify_current_implementations = do
    await_compile H
    deployments ← get_deployments H
    tmp ← load_tmp_deployments H
    owner ← read H (Read.owner deployments.proxy_admin_address)
    verify_each deployments tmp owner deployments.contracts true
