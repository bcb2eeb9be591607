-- ===== src/Verifier/Tests.antt =====
-- The command for the creator's proxy, and the names of a deployment.
use arb_bridge_peripherals.Base.{◌≡◌, refl, none, some, true, codes, Text, ◌===◌}
use arb_bridge_peripherals.Verifier.{ContractVerifier, verify_command}
use arb_bridge_peripherals.Verifier.Words.{words, command_words, words-verify_command}
use arb_bridge_peripherals.Verifier.Sources.{IsSourced, deploy_l1_token_bridge_creator-Sourced}
use arb_bridge_peripherals.Chain.Growth.{Grows}
use arb_bridge_peripherals.Chain.Small.{small_chain, start}
use arb_bridge_peripherals.TokenBridge.Creator.{deploy_l1_token_bridge_creator}

abbrev verifier : ContractVerifier
verifier = record { chain_id = 42161; api_key = codes "KEY" }

multicall_command :
    verify_command verifier (codes "l1Multicall") (codes "0xab") none (some 200)
    ≡ codes
        "forge verify-contract --chain-id 42161 --compiler-version 0.8.16 --num-of-optimizations 200 0xab contracts/rpc-utils/MulticallV2.sol:Multicall2 --etherscan-api-key KEY"
unfolding verify_command ◌===◌
multicall_command = refl

words-verify_command_example :
    words (
      verify_command verifier
        (codes "l1TokenBridgeCreatorProxy")
        (codes "0xab")
        (some (codes "0xcd"))
        none)
    ≡ command_words verifier
        (codes "l1TokenBridgeCreatorProxy")
        (codes "0xab")
        (some (codes "0xcd"))
        none
words-verify_command_example =
    words-verify_command verifier (codes "l1TokenBridgeCreatorProxy") (codes "0xab")
      (some (codes "0xcd")) none refl refl refl

abbrev address : Text
address = codes "0x9"

deploy_l1_token_bridge_creator-Sourced_example :
    Grows
      (small_chain none)
      IsSourced
      (start none)
      (deploy_l1_token_bridge_creator
        (small_chain none)
        address
        address
        6000000
        true
        (start none)).1
deploy_l1_token_bridge_creator-Sourced_example =
    deploy_l1_token_bridge_creator-Sourced (small_chain none) address address 6000000 true
      (start none)
