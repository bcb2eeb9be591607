-- ===== src/Usdc/Tests.antt =====
-- The steps of the USDC deployment on small chains: one that pays its fees in ETH, one with a fee token.
use arb_bridge_peripherals.Base.{
  ◌≡◌, refl, ◌++◌, Option, none, some, [], ◌∷◌, Text, codes, ok, effects, ◌===◌, ◌↔◌, length,
}
use arb_bridge_peripherals.Chain.Types.{parent, Calldata, Tx, sent, wrote}
use arb_bridge_peripherals.Chain.{World, send, write_file, random_address, wait_for_status}
use arb_bridge_peripherals.Usdc.Token.{deploy_bridged_usdc}
use arb_bridge_peripherals.Usdc.Token.Scope.{Works, deploy_bridged_usdc-Works}
use arb_bridge_peripherals.Chain.Small.{small_chain, start}
use arb_bridge_peripherals.Usdc.Env.{Env, check_env_vars}
use arb_bridge_peripherals.Usdc.Env.Complete.{HasValue, check_env_vars-Complete}
use arb_bridge_peripherals.Usdc.Linking.{starts_with, link_library}
use arb_bridge_peripherals.Usdc.Linking.Layout.{length-link_library}
use arb_bridge_peripherals.Usdc.Gateways.{
  l1_gateway_differs, l2_gateway_differs, initialize_gateways,
}
use arb_bridge_peripherals.Usdc.Gateways.Agreement.{Paired, initialize_gateways-Paired}
use arb_bridge_peripherals.Chain.FeeToken.{address_zero, fee_token_answer, get_fee_token}
use arb_bridge_peripherals.Amount.{get_prescaled_amount, prescaled_amount}
use arb_bridge_peripherals.Usdc.Env.{Settings}
use arb_bridge_peripherals.Usdc.Registration.{
  Prepared, quote_of, registration_calldata, registration_tx, transfer_tx, approve_tx,
  is_upgrade_executor, wait_on_l2_msg, registration_quote, prepare_registration, multisig_txs,
  execute_registration, register_gateway,
}
use arb_bridge_peripherals.Usdc.Registration.Comparison.{
  register_gateway_eth, register_gateway_token,
}

abbrev settings : Settings
settings = record { l1_router = codes "0x01"; l2_router = codes "0x02"; l1_usdc = codes "0x03" }

abbrev environment : Env
environment name = some (codes "0x01")

check_env_vars-Complete_example :
    (check_env_vars environment (start none) ≡ (ok tt, start none)) ↔ (
      HasValue environment "PARENT_RPC"
      × HasValue environment "PARENT_DEPLOYER_KEY"
      × HasValue environment "CHILD_RPC"
      × HasValue environment "CHILD_DEPLOYER_KEY"
      × HasValue environment "L1_ROUTER"
      × HasValue environment "L2_ROUTER"
      × HasValue environment "INBOX"
      × HasValue environment "L1_USDC")
check_env_vars-Complete_example = check_env_vars-Complete environment (start none)

abbrev paired_end : World (small_chain none)
paired_end =
    (initialize_gateways (small_chain none) settings (codes "0x20") (codes "0x22") (codes "0x10")
      (codes "0x04") (codes "0xa1") (codes "0xa1") (start none)).1

initialize_gateways-Paired_example :
    Paired
      (small_chain none)
      settings
      (codes "0x20")
      (codes "0x22")
      (codes "0x10")
      (codes "0x04")
      (codes "0xa1")
      (codes "0xa1")
      paired_end.chain
unfolding initialize_gateways l1_gateway_differs l2_gateway_differs send ◌===◌ effects
initialize_gateways-Paired_example =
    initialize_gateways-Paired (small_chain none) settings (codes "0x20") (codes "0x22")
      (codes "0x10") (codes "0x04") (codes "0xa1") (codes "0xa1") (start none) refl

abbrev bytecode : Text
bytecode = codes "0x60__$715109b5d747ea58b675c6ea3f0dba8c60$__00"

length-link_library_example :
    length (link_library bytecode (codes "0x000000000000000000000000000000000000dEaD"))
    ≡ length bytecode
unfolding starts_with
length-link_library_example =
    length-link_library bytecode (codes "0x000000000000000000000000000000000000dEaD") refl refl

-- Where the runs without and with the rollup owner's key end.
abbrev filed_end : (token : Option Text) → World (small_chain token)
filed_end token =
    (register_gateway (small_chain token) settings none (codes "0x10") (codes "0x20")
      (start token)).1

abbrev executed_end : (token : Option Text) → World (small_chain token)
executed_end token =
    (register_gateway (small_chain token) settings (some (codes "0xee")) (codes "0x10")
      (codes "0x20") (start token)).1

abbrev token_address : Text
token_address = codes "0x55"

register_gateway_eth_example :
    (tx : Tx) × ((filed_end none).log ≡ [] ++ (wrote (tx ∷ []) ∷ []))
    × ((executed_end none).log ≡ [] ++ (sent parent (codes "0xee") tx ∷ []))
unfolding register_gateway execute_registration multisig_txs prepare_registration registration_quote
    wait_on_l2_msg is_upgrade_executor approve_tx transfer_tx registration_tx registration_calldata
    quote_of get_fee_token fee_token_answer address_zero send write_file random_address
    wait_for_status get_prescaled_amount prescaled_amount ◌===◌ effects
register_gateway_eth_example =
    register_gateway_eth (small_chain none) settings (codes "0x10") (codes "0x20") (codes "0xee")
      (start none) refl refl refl refl

register_gateway_token_example :
    (p : Prepared) × ((filed_end (some token_address)).log
      ≡ []
        ++ (wrote (
              transfer_tx token_address p
              ∷ approve_tx p (Calldata.approve (codes "0x01") p.quote.total_fee)
              ∷ registration_tx settings p
              ∷ [])
            ∷ []))
    × ((executed_end (some token_address)).log
        ≡ (([] ++ (sent parent (codes "0xee") (transfer_tx token_address p) ∷ []))
            ++ (sent parent (codes "0xee") (
                  approve_tx p (
                    Calldata.execute_call token_address
                      (Calldata.approve (codes "0x01") p.quote.total_fee)))
                ∷ []))
          ++ (sent parent (codes "0xee") (registration_tx settings p) ∷ []))
unfolding register_gateway execute_registration multisig_txs prepare_registration registration_quote
    wait_on_l2_msg is_upgrade_executor approve_tx transfer_tx registration_tx registration_calldata
    quote_of get_fee_token fee_token_answer address_zero send write_file random_address
    wait_for_status get_prescaled_amount prescaled_amount ◌===◌ effects
register_gateway_token_example =
    register_gateway_token (small_chain (some token_address)) settings (codes "0x10") (codes "0x20")
      (codes "0xee") (start (some token_address)) refl refl refl token_address refl refl

deploy_bridged_usdc-Works_example :
    Works
      (small_chain none)
      (codes "0xee")
      (start none)
      (deploy_bridged_usdc (small_chain none) bytecode (codes "0xee") (codes "0xad") (start none)).1
deploy_bridged_usdc-Works_example =
    deploy_bridged_usdc-Works (small_chain none) (codes "0xee") bytecode (codes "0xad") (start none)
