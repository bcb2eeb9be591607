-- ===== src/OrbitTokenBridge/Usdc/Handover.antt =====
-- The handover of USDC to Circle: both gateways are paused, Circle gets the roles, and it burns the USDC
-- that the gateway of the parent chain holds.
pub mod Order
use arb_bridge_peripherals.Base.{ℕ, ◌*◌, ◌^◌, not, ◌===◌, ◌==◌, Text, pure, ◌>>=◌, ◌>>◌}
use arb_bridge_peripherals.Chain.Types.{parent, child, Getter, NumberGetter, Flag, Calldata}
use arb_bridge_peripherals.Chain.{Network, Run, read, read_number, read_flag, random_address}
use arb_bridge_peripherals.DeploymentCheck.{expect}
use arb_bridge_peripherals.OrbitTokenBridge.{Setup, ether, call}
use arb_bridge_peripherals.OrbitTokenBridge.Usdc.{UsdcContracts}

module _ (N : Network) (s : Setup) (c : UsdcContracts) where
  unfoldable pub pause_gateways : Run N (Unit {0})
  unfolding call expect
  pause_gateways = do
    call N parent s.deployer c.l1_gateway 0 Calldata.pause_deposits
    l1_paused ← read_flag N parent c.l1_gateway Flag.deposits_paused
    expect N l1_paused
    call N child s.deployer c.l2_gateway 0 Calldata.pause_withdrawals
    l2_paused ← read_flag N child c.l2_gateway Flag.withdrawals_paused
    expect N l2_paused

  -- The burner is a new wallet, whose address is returned.
  unfoldable pub prepare_burn : Run N Text
  unfolding call expect
  prepare_burn = do
    supply ← read_number N child c.l2_usdc NumberGetter.total_supply
    call N parent s.deployer c.l1_gateway 0 (Calldata.set_burn_amount supply)
    burn_amount ← read_number N parent c.l1_gateway NumberGetter.burn_amount
    expect N (burn_amount == supply)
    circle ← random_address N
    call N parent s.deployer circle (ether 1) Calldata.no_calldata
    call N parent s.deployer c.l1_gateway 0 (Calldata.set_burner circle)
    burner ← read N parent c.l1_gateway Getter.burner
    expect N (burner === circle)
    call N parent s.deployer c.l1_usdc 0 (Calldata.configure_minter_allowance c.l1_gateway 0)
    pure circle

  -- The gateway of the child chain may not mint any more, and it gets the token's ownership, to hand
  -- it on to another new wallet.
  unfoldable pub transfer_roles : Run N (Unit {0})
  unfolding call expect
  transfer_roles = do
    call N child s.deployer c.l2_usdc 0 (Calldata.remove_minter c.l2_gateway)
    minter ← read_flag N child c.l2_usdc (Flag.is_minter c.l2_gateway)
    expect N (not minter)
    circle ← random_address N
    call N child s.deployer circle (ether 1) Calldata.no_calldata
    call N child s.deployer c.l2_gateway 0 (Calldata.set_usdc_ownership_transferrer circle)
    transferrer ← read N child c.l2_gateway Getter.usdc_ownership_transferrer
    expect N (transferrer === circle)
    call N child s.deployer c.l2_usdc 0 (Calldata.transfer_ownership c.l2_gateway)
    owner ← read N child c.l2_usdc Getter.owner
    expect N (owner === c.l2_gateway)
    call N child s.deployer c.proxy_admin_l2 0 (Calldata.change_proxy_admin c.l2_usdc c.l2_gateway)
    admin ← read N child c.l2_usdc Getter.admin
    expect N (admin === c.l2_gateway)
    call N child circle c.l2_gateway 0 (Calldata.transfer_usdc_roles circle)
    next_owner ← read N child c.l2_usdc Getter.owner
    expect N (next_owner === circle)
    next_admin ← read N child c.l2_usdc Getter.admin
    expect N (next_admin === circle)

  unfoldable pub burn_locked_usdc : ℕ → Text → Run N (Unit {0})
  unfolding call expect
  burn_locked_usdc amount circle = do
    call N parent circle c.l1_gateway 0 Calldata.burn_locked_usdc
    locked ← read_number N parent c.l1_usdc (NumberGetter.balance_of c.l1_gateway)
    expect N (locked == 0)
    received ← read_number N child c.l2_usdc (NumberGetter.balance_of s.user)
    expect N (received == amount)

  unfoldable pub hand_over : ℕ → Run N (Unit {0})
  unfolding pause_gateways prepare_burn transfer_roles burn_locked_usdc
  hand_over amount = do
    pause_gateways
    circle ← prepare_burn
    transfer_roles
    burn_locked_usdc amount circle
