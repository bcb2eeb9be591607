-- ===== src/OrbitTokenBridge/Tests.antt =====
-- The deposits and the handover on a small chain.
use arb_bridge_peripherals.Base.{
  ℕ, ◌≡◌, refl, Bool, true, false, Option, some, [], Text, codes, ltb, ◌===◌, if◌then◌else◌, ok,
  effects,
}
use arb_bridge_peripherals.Chain.Types.{Layer, parent, child, Getter, NumberGetter, Flag}
use arb_bridge_peripherals.Chain.NetworkTypes.{L2Network}
use arb_bridge_peripherals.Chain.{Network, World, send, wait_for_status, random_address}
use arb_bridge_peripherals.Amount.{scaled_amount, get_scaled_amount}
use arb_bridge_peripherals.TokenBridge.Create.{is_redeemed}
use arb_bridge_peripherals.Chain.Small.{small_chain}
use arb_bridge_peripherals.LocalDeployment.{orbit_local}
use arb_bridge_peripherals.OrbitTokenBridge.{Setup, native_balance, native_amount}
use arb_bridge_peripherals.OrbitTokenBridge.Deposit.{deposit_token}
use arb_bridge_peripherals.OrbitTokenBridge.Deposit.Traced.{Deposited, deposit_token-Deposited}
use arb_bridge_peripherals.OrbitTokenBridge.Steps.{Passes}
use arb_bridge_peripherals.OrbitTokenBridge.Usdc.{UsdcContracts}
use arb_bridge_peripherals.OrbitTokenBridge.Usdc.Handover.{hand_over}
use arb_bridge_peripherals.OrbitTokenBridge.Usdc.Handover.Order.{HandedOver, hand_over-HandedOver}

abbrev network : L2Network
network =
    orbit_local 412346 333333
      (record {
        bridge = codes "0x0b";
        inbox = codes "0x0c";
        sequencer_inbox = codes "0x0d";
        rollup = codes "0x0e";
      })
      (codes "0x0f")

abbrev prepared : Setup
prepared = record {
  deployer = codes "0xde";
  user = codes "0xee";
  l2_network = network;
  native_token = some (codes "0x55");
}

abbrev contracts : UsdcContracts
contracts = record {
  proxy_admin_l2 = codes "0xad";
  l1_gateway = codes "0x61";
  l2_gateway = codes "0x62";
  l1_usdc = codes "0x63";
  l2_usdc = codes "0x64";
}

-- A chain on which the third transaction moves 120 of the token and a fee of 1, and on which the roles of
-- USDC have been handed over after the twelfth.
abbrev lawful : Network
lawful = record (small_chain (some (codes "0x55"))) {
  read = λ l a g n. elim g as (λ _. Option Text) [
    | Getter.owner ↦ some (if ltb n 12 then codes "0x62" else codes "0x77")
    | Getter.admin ↦ some (if ltb n 12 then codes "0x62" else codes "0x77")
    | Getter.get_gateway t ↦ some []
    | _ ↦ some (codes "0x77")
  ];
  read_number = λ l a g n. elim g as (λ _. Option ℕ) [
    | NumberGetter.balance_of account ↦ some (balance l a account n)
    | _ ↦ some 6
  ];
  read_flag = λ l a g n. elim g as (λ _. Option Bool) [
    | Flag.is_minter account ↦ some false
    | _ ↦ some true
  ];
}
  where
    balance : Layer → Text → Text → ℕ → ℕ
    balance child a account n = 120
    balance parent a account n =
        if a === codes "0x70"
        then (if account === codes "0xee"
            then (if ltb n 3 then 200 else 80)
            else (if ltb n 3 then 0 else 120))
        else if a === codes "0x55"
        then (if account === codes "0xee"
            then (if ltb n 3 then 10 else 9)
            else (if ltb n 3 then 0 else 1))
        else 0

abbrev first : World lawful
first = record { chain = 0; draws = 0; log = [] }

deposit_passes : (deposit_token lawful prepared (codes "0x70") 120 first).0 ≡ ok tt
unfolding deposit_token ◌===◌ effects native_balance send native_amount get_scaled_amount
    wait_for_status is_redeemed orbit_local scaled_amount
deposit_passes = refl

hand_over_passes : (hand_over lawful prepared contracts 120 first).0 ≡ ok tt
unfolding hand_over ◌===◌ effects send random_address
hand_over_passes = refl

deposit_token-Deposited_example :
    Passes lawful
      (λ _ t.
        Deposited lawful prepared
          (codes "0x70")
          prepared.l2_network.token_bridge.l1_erc20_gateway
          120
          584000000000
          first
          t)
      (deposit_token lawful prepared (codes "0x70") 120)
      first
deposit_token-Deposited_example = deposit_token-Deposited lawful prepared (codes "0x70") 120 first

hand_over-HandedOver_example :
    Passes lawful
      (λ _ t. HandedOver lawful prepared contracts 120 first t)
      (hand_over lawful prepared contracts 120)
      first
hand_over-HandedOver_example = hand_over-HandedOver lawful prepared contracts 120 first
