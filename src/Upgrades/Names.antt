-- ===== src/Upgrades/Names.antt =====
-- The contracts and how each of them is upgraded: tasks/types.ts.
use arb_bridge_peripherals.Base.{ℕ, Bool, true, false, ◌||◌, ite}

pub data ContractName : Type 0 where
  l1_gateway_router l1_erc20_gateway l1_custom_gateway l1_weth_gateway : ContractName
  l2_erc20_gateway l2_gateway_router l2_custom_gateway l2_weth_gateway : ContractName
  standard_arb_erc20 rollup rollup_admin_facet rollup_user_facet rollup_event_bridge : ContractName
  node challenge one_step_proof one_step_proof2 one_step_proof_hash : ContractName
  inbox bridge sequencer_inbox outbox old_outbox outbox_entry : ContractName

unfoldable pub ContractName-discrete : Discrete ContractName
ContractName-discrete = hlevel

pub data UpgradeableType : Type 0 where
  beacon_owned_by_eoa beacon_owned_by_rollup transparent_proxy proxy : UpgradeableType
  user_facet admin_facet : UpgradeableType

unfoldable pub UpgradeableType-discrete : Discrete UpgradeableType
UpgradeableType-discrete = hlevel

unfoldable pub proxy_type : ContractName → UpgradeableType
proxy_type ContractName.standard_arb_erc20 = beacon_owned_by_eoa
proxy_type ContractName.node = beacon_owned_by_rollup
proxy_type ContractName.challenge = beacon_owned_by_rollup
proxy_type ContractName.outbox_entry = beacon_owned_by_rollup
proxy_type ContractName.rollup_admin_facet = admin_facet
proxy_type ContractName.rollup_user_facet = user_facet
proxy_type _ = transparent_proxy

abbrev has_type : ContractName → UpgradeableType → Bool
has_type n t = ite (UpgradeableType-discrete (proxy_type n) t) true false

unfoldable pub is_beacon_owned_by_eoa : ContractName → Bool
unfolding proxy_type UpgradeableType-discrete
is_beacon_owned_by_eoa n = has_type n beacon_owned_by_eoa

unfoldable pub is_beacon_owned_by_rollup : ContractName → Bool
unfolding proxy_type UpgradeableType-discrete
is_beacon_owned_by_rollup n = has_type n beacon_owned_by_rollup

unfoldable pub is_beacon : ContractName → Bool
unfolding is_beacon_owned_by_eoa is_beacon_owned_by_rollup
is_beacon n = is_beacon_owned_by_eoa n || is_beacon_owned_by_rollup n

unfoldable pub is_rollup_user_facet : ContractName → Bool
unfolding proxy_type UpgradeableType-discrete
is_rollup_user_facet n = has_type n user_facet

unfoldable pub is_rollup_admin_facet : ContractName → Bool
unfolding proxy_type UpgradeableType-discrete
is_rollup_admin_facet n = has_type n admin_facet

unfoldable pub get_layer : ContractName → ℕ
get_layer ContractName.l2_erc20_gateway = 2
get_layer ContractName.l2_gateway_router = 2
get_layer ContractName.l2_weth_gateway = 2
get_layer ContractName.l2_custom_gateway = 2
get_layer ContractName.standard_arb_erc20 = 2
get_layer _ = 1

unfoldable pub has_post_init_hook : ContractName → Bool
has_post_init_hook ContractName.l1_gateway_router = true
has_post_init_hook ContractName.l1_erc20_gateway = true
has_post_init_hook ContractName.l1_custom_gateway = true
has_post_init_hook ContractName.l1_weth_gateway = true
has_post_init_hook ContractName.l2_erc20_gateway = true
has_post_init_hook ContractName.l2_gateway_router = true
has_post_init_hook ContractName.l2_custom_gateway = true
has_post_init_hook ContractName.l2_weth_gateway = true
has_post_init_hook ContractName.rollup = true
has_post_init_hook ContractName.sequencer_inbox = true
has_post_init_hook _ = false
