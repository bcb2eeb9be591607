-- ===== src/Upgrades/Admin.antt =====
-- `transferAdmin` and `transferBeaconOwner`.
use arb_bridge_peripherals.Base.{
  not, Text, same_address, pure, throw_if, ◌>>=◌, ◌>>◌, if◌then◌else◌,
}
use arb_bridge_peripherals.Upgrades.Node.{
  Hre, Run, read, Read, send, change_proxy_admin, transfer_ownership,
}
use arb_bridge_peripherals.Upgrades.Files.{is_yes, global_prompt}
use arb_bridge_peripherals.Upgrades.Signer.{await_compile, first_signer}
use arb_bridge_peripherals.Upgrades.Verify.{get_admin_from_proxy_storage}

module _ (H : Hre) where
  unfoldable pub transfer_admin : Text → Text → Run H (Unit {0})
  transfer_admin proxy new_admin = do
    await_compile H
    proxy_admin ← get_admin_from_proxy_storage H proxy
    owner ← read H (Read.owner proxy_admin)
    throw_if (same_address new_admin owner) "User trying to update admin to current admin address"
    signer ← first_signer H
    throw_if (not (same_address signer owner)) "User signer is not the owner of proxy admin"
    send H signer (change_proxy_admin proxy_admin proxy new_admin)

  unfoldable pub transfer_beacon_owner : Text → Text → Run H (Unit {0})
  transfer_beacon_owner beacon new_owner = do
    await_compile H
    signer ← first_signer H
    owner ← read H (Read.owner beacon)
    throw_if (not (same_address owner signer))
        "Not connecetd as owner ${beaconOwner}, instead running as ${signer.address}"
    confirm ← global_prompt H
    if is_yes confirm then send H signer (transfer_ownership beacon new_owner) else pure tt
