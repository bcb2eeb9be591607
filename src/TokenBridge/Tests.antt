-- ===== src/TokenBridge/Tests.antt =====
-- The payment for the tickets and the wait for them on small chains.
use arb_bridge_peripherals.Base.{
  ℕ, suc, ◌*◌, ◌^◌, ◌≤◌, ◌≡◌, refl, ◌++◌, Option, none, some, [], ◌∷◌, true, Text, codes, ok,
  effects, ◌===◌,
}
use arb_bridge_peripherals.Amount.{scaled_amount, get_scaled_amount}
use arb_bridge_peripherals.Chain.Types.{parent, child, Getter, GasParams, Calldata, Status, sent}
use arb_bridge_peripherals.Chain.{World, send, wait_for_status}
use arb_bridge_peripherals.Chain.Small.{small_chain, start}
use arb_bridge_peripherals.Chain.FeeToken.{address_zero, get_fee_token, fee_token_answer}
use arb_bridge_peripherals.TokenBridge.Gas.{TicketFees}
use arb_bridge_peripherals.TokenBridge.Create.{
  create_tx, approve_fees, pay_and_create, await_tickets, wait_all, is_redeemed,
}
use arb_bridge_peripherals.TokenBridge.Create.Payment.{
  creation, pay_and_create-eth, pay_and_create-token,
}
use arb_bridge_peripherals.Chain.Scope.{StaysLocal}
use arb_bridge_peripherals.TokenBridge.Creator.{deploy_l1_token_bridge_creator}
use arb_bridge_peripherals.TokenBridge.Creator.Scope.{deploy_l1_token_bridge_creator-StaysLocal}
use arb_bridge_peripherals.TokenBridge.Register.{build_call, check_routers, register_gateways}
use arb_bridge_peripherals.TokenBridge.Register.Counterparts.{
  set_gateways_tx, register_gateways-Counterparts,
}
use arb_bridge_peripherals.TokenBridge.Create.Tickets.{Answer, await_tickets-redeemed}

abbrev fees : TicketFees
fees = record { max_gas_for_contracts = 1000; for_factory = 1500000000000; for_contracts = 7 }

abbrev token_address : Text
token_address = codes "0x55"

abbrev paid : (token : Option Text) → World (small_chain token)
paid token =
    (pay_and_create (small_chain token) (codes "0xee") (codes "0xc4") (codes "0x10") (codes "0x0e")
      10 fees (start token)).1

pay_and_create-eth_example :
    (paid none).log
    ≡ []
      ++ (sent parent (codes "0xee") (
            creation
              (small_chain none)
              (codes "0xc4")
              (codes "0x10")
              (codes "0x0e")
              10
              fees
              1500000000007)
          ∷ [])
unfolding pay_and_create create_tx approve_fees get_fee_token fee_token_answer address_zero send
    ◌===◌ effects
pay_and_create-eth_example =
    pay_and_create-eth (small_chain none) (codes "0xee") (codes "0xc4") (codes "0x10")
      (codes "0x0e") 10 fees (start none) refl refl

pay_and_create-token_example :
    (amount : ℕ) × ((paid (some token_address)).log
      ≡ ([]
          ++ (sent parent (codes "0xee") (record {
            to = token_address;
            value = 0;
            calldata = Calldata.approve (codes "0xc4") amount;
          })
              ∷ []))
        ++ (sent parent
              (codes "0xee")
              (creation (small_chain none) (codes "0xc4") (codes "0x10") (codes "0x0e") 10 fees 0)
            ∷ []))
    × (1500000000007 * 10 ^ 6 ≤ amount * 10 ^ 18)
unfolding pay_and_create create_tx approve_fees get_fee_token fee_token_answer address_zero
    get_scaled_amount scaled_amount send ◌===◌ effects
pay_and_create-token_example =
    pay_and_create-token (small_chain (some token_address)) (codes "0xee") (codes "0xc4")
      (codes "0x10") (codes "0x0e") 10 fees (start (some token_address)) token_address 6 refl refl
      refl refl

await_tickets-redeemed_example :
    (n : ℕ) × (some 2 ≡ some (suc (suc n)))
    × Answer (small_chain none) (codes "0xfe") 0 Status.redeemed
    × Answer (small_chain none) (codes "0xfe") 1 Status.redeemed
unfolding await_tickets wait_all is_redeemed wait_for_status effects
await_tickets-redeemed_example =
    await_tickets-redeemed (small_chain none) (codes "0xfe") (start none) refl

deploy_l1_token_bridge_creator-StaysLocal_example :
    StaysLocal
      (small_chain none)
      parent
      (codes "0xee")
      (start none)
      (deploy_l1_token_bridge_creator
        (small_chain none)
        (codes "0xee")
        (codes "0x0f")
        6000000
        true
        (start none)).1
deploy_l1_token_bridge_creator-StaysLocal_example =
    deploy_l1_token_bridge_creator-StaysLocal (small_chain none) (codes "0xee") (codes "0x0f")
      6000000 true (start none)

-- The chain's answer to `counterpartGateway` is "0x22" on the parent and "0x20" on the child.
abbrev registered_end : World (small_chain none)
registered_end =
    (register_gateways (small_chain none) (codes "0xee") (codes "0xe1") (codes "0x20")
      (codes "0x03" ∷ []) (codes "0x04" ∷ []) (start none)).1

register_gateways-Counterparts_example :
    (l2_router : Text) × (p : GasParams) × (some (codes "0x22") ≡ some l2_router)
    × ((small_chain none).read child l2_router Getter.counterpart_gateway 0 ≡ some (codes "0x20"))
    × (some
          (record { gas_limit = 100; max_fee_per_gas = 2; max_submission_cost = 50; deposit = 250 })
        ≡ some p)
    × (registered_end.log
        ≡ []
          ++ (sent parent (codes "0xee") (
                set_gateways_tx
                  (small_chain none)
                  (codes "0xe1")
                  (codes "0x20")
                  (codes "0x03" ∷ [])
                  (codes "0x04" ∷ [])
                  p)
              ∷ []))
    × (tx : Text) × (u : World (small_chain none)) × (send
          (small_chain none)
          parent
          (codes "0xee")
          (set_gateways_tx
            (small_chain none)
            (codes "0xe1")
            (codes "0x20")
            (codes "0x03" ∷ [])
            (codes "0x04" ∷ [])
            p)
          (start none)
        ≡ (ok tx, u))
    × (wait_for_status (small_chain none) tx 0 u ≡ (ok Status.redeemed, registered_end))
unfolding register_gateways check_routers build_call is_redeemed send wait_for_status ◌===◌ effects
register_gateways-Counterparts_example =
    register_gateways-Counterparts (small_chain none) (codes "0xee") (codes "0xe1") (codes "0x20")
      (codes "0x03" ∷ []) (codes "0x04" ∷ []) (start none) refl
