-- ===== src/CreationCode/Tests.antt =====
-- A contract whose constructor has two bytes.
use arb_bridge_peripherals.Base.{◌≡◌, refl, Option, none, some, Text, codes, ok, effects}
use arb_bridge_peripherals.Chain.Small.{small_chain, start}
use arb_bridge_peripherals.CreationCode.{Artifact, expect_constructor_size}
use arb_bridge_peripherals.CreationCode.Constructor.{HasSize, expect_constructor_size-HasSize}
use arb_bridge_peripherals.Upgrades.Signer.{includes}

abbrev artifacts : Text → Option Artifact
artifacts name =
    some (record { bytecode = codes "0x6080f3fe00"; deployed_bytecode = codes "0xf3fe00" })

two_bytes :
    expect_constructor_size (small_chain none) artifacts (codes "aeWETH") 2 (start none)
    ≡ (ok tt, start none)
unfolding expect_constructor_size includes effects
two_bytes = refl

expect_constructor_size-HasSize_example :
    (start none ≡ start none) × HasSize artifacts (start none) (codes "aeWETH") 2
expect_constructor_size-HasSize_example =
    expect_constructor_size-HasSize artifacts (start none) (codes "aeWETH") 2 (start none) two_bytes
