-- ===== src/Alias/Tests.antt =====
-- Aliases of two addresses, one of which wraps around.
use arb_bridge_peripherals.Base.{◌+◌, ◌-◌, ◌%◌, ◌^◌, ◌≡◌, refl, some, Text, codes, length, arith}
use arb_bridge_peripherals.Alias.{big_int, offset, apply_alias}
use arb_bridge_peripherals.Alias.Shift.{apply_alias-Shifts}

alias_of_one :
    apply_alias (codes "0x0000000000000000000000000000000000000001")
    ≡ some (codes "0x1111000000000000000000000000000000001112")
unfolding apply_alias
alias_of_one = refl

alias_wraps :
    apply_alias (codes "0xEeeF000000000000000000000000000000000001")
    ≡ some (codes "0x0000000000000000000000000000000000001112")
unfolding apply_alias
alias_wraps = refl

apply_alias-Shifts_example :
    (b : Text) × (apply_alias (codes "0xEeeF000000000000000000000000000000000001") ≡ some b)
    × (length b ≡ 42)
    × (big_int b ≡ some ((0xeeef000000000000000000000000000000000001 + offset) % 2 ^ 160))
    × (((0xeeef000000000000000000000000000000000001 + offset) % 2 ^ 160 + (2 ^ 160 - offset))
          % 2 ^ 160
        ≡ 0xeeef000000000000000000000000000000000001)
unfolding big_int
apply_alias-Shifts_example =
    apply_alias-Shifts (codes "0xEeeF000000000000000000000000000000000001")
      0xeeef000000000000000000000000000000000001 refl (omega arith)
