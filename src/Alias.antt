-- ===== src/Alias.antt =====
-- `applyAlias` of test/testhelper.ts, the address that a contract of the parent chain has as a sender on
-- the child chain, with the conversions of BigInt that it uses.
use arb_bridge_peripherals.Base.{
  ℕ, zero, suc, ◌+◌, ◌-◌, ◌*◌, ◌/◌, ◌%◌, ◌^◌, Bool, true, false, ◌&&◌, Option, none, some, List, [],
  ◌∷◌, ◌++◌, Text, codes, length, replicate, ltb, leb, ◌==◌, if◌then◌else◌,
}
pub mod Shift
mod Tests

unfoldable pub digit_value : ℕ → Option ℕ
digit_value c =
    if leb b'0' c && leb c b'9'
    then some (c - 48)
    else if leb b'a' c && leb c b'f'
    then some (c - 87)
    else if leb b'A' c && leb c b'F'
    then some (c - 55)
    else none

unfoldable pub digits_value : ℕ → Text → Option ℕ
unfolding digit_value
digits_value n [] = some n
digits_value n (c ∷ cs) = elim (digit_value c) [
  | none ↦ none
  | some d ↦ digits_value (n * 16 + d) cs
]

-- `BigInt` of an address, which starts with `0x`; another digit is a `SyntaxError`. A text that does
-- not start so is no address, and is refused.
unfoldable pub big_int : Text → Option ℕ
unfolding digits_value
big_int (x ∷ y ∷ c ∷ cs) = if x == b'0' && y == b'x' then digits_value 0 (c ∷ cs) else none
big_int _ = none

unfoldable pub digit_code : ℕ → ℕ
digit_code d = if ltb d 10 then d + 48 else d + 87

-- `toString(16)`: the digits of a number, before those that are there already. The count bounds their
-- number.
unfoldable pub write_digits : ℕ → ℕ → Text → Text
unfolding digit_code
write_digits zero n ds = ds
write_digits (suc k) n ds =
    let more = write_digits k (n / 16) (digit_code (n % 16) ∷ ds) in
    if ltb n 16 then digit_code n ∷ ds else more

unfoldable pub pad_start : ℕ → Text → Text
pad_start n t = replicate (n - length t) b'0' ++ t

unfoldable pub offset : ℕ
offset = 0x1111000000000000000000000000000000001111

-- 160 bits have 40 hexadecimal digits.
unfoldable pub alias_of : ℕ → Text
unfolding write_digits pad_start offset
alias_of n = b'0' ∷ b'x' ∷ pad_start 40 (write_digits 40 ((n + offset) % 2 ^ 160) [])

unfoldable pub apply_alias : Text → Option Text
unfolding big_int alias_of
apply_alias address = elim (big_int address) [ none ↦ none | some n ↦ some (alias_of n) ]
