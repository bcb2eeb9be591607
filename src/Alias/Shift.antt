-- ===== src/Alias/Shift.antt =====
-- The alias as a shift of the numbers below `2 ^ 160`.
use arb_bridge_peripherals.Base.{
  ℕ, zero, suc, ◌+◌, ◌-◌, ◌*◌, ◌/◌, ◌%◌, ◌^◌, ◌≤◌, ◌<◌, ◌≡◌, refl, ap, ◌∙◌, Option, none, some, [],
  ◌∷◌, ◌++◌, Text, length, replicate, length-append, ltb, ltb→lt, Bool-cases, inl, inr,
  if◌then◌else◌, arith,
}
use native.Mathlib.Nat.{pow-suc}
use arb_bridge_peripherals.Alias.{
  digit_value, digits_value, big_int, digit_code, write_digits, pad_start, offset, alias_of,
  apply_alias,
}

digit_value-digit_code : (d : ℕ) → d < 16 → digit_value (digit_code d) ≡ some d
unfolding digit_value digit_code
digit_value-digit_code d h = ground arith

digits_value-digit :
    (n d : ℕ) (ds : Text)
    → d < 16
    → digits_value n (digit_code d ∷ ds) ≡ digits_value (n * 16 + d) ds
unfolding digits_value
digits_value-digit n d ds h =
    ap
      (λ (o : Option ℕ). elim o as (λ _. Option ℕ) [
        | none ↦ none
        | some e ↦ digits_value (n * 16 + e) ds
      ])
      (digit_value-digit_code d h)

digits_value-write_digits :
    (k n : ℕ) (ds : Text) → n < 16 ^ k → digits_value 0 (write_digits k n ds) ≡ digits_value n ds
unfolding write_digits
digits_value-write_digits zero n ds h = ap (λ m. digits_value m ds) (omega (arith, h))
digits_value-write_digits (suc k) n ds h = elim (Bool-cases (ltb n 16)) [
  | inl b ↦
      ap (λ c. digits_value 0 (if c then digit_code n ∷ ds else more)) b
      ∙ digits_value-digit 0 n ds (ltb→lt n 16 b)
      ∙ ap (λ m. digits_value m ds) (omega arith)
  | inr b ↦
      ap (λ c. digits_value 0 (if c then digit_code n ∷ ds else more)) b
      ∙ digits_value-write_digits k (n / 16) (digit_code (n % 16) ∷ ds)
          (omega (arith, h, pow-suc 16 k))
      ∙ digits_value-digit (n / 16) (n % 16) ds (omega arith)
      ∙ ap (λ m. digits_value m ds) (omega arith)
]
  where
    more : Text
    more = write_digits k (n / 16) (digit_code (n % 16) ∷ ds)

length-write_digits : (k n : ℕ) (ds : Text) → length (write_digits k n ds) ≤ k + length ds
unfolding write_digits
length-write_digits zero n ds = omega arith
length-write_digits (suc k) n ds =
    ground (arith, length-write_digits k (n / 16) (digit_code (n % 16) ∷ ds))

digits_value-zeros :
    (k : ℕ) (ds : Text) → digits_value 0 (replicate k b'0' ++ ds) ≡ digits_value 0 ds
unfolding digits_value digit_value
digits_value-zeros zero ds = refl
digits_value-zeros (suc k) ds = digits_value-zeros k ds

length-replicate : (k c : ℕ) → length (replicate k c) ≡ k
length-replicate zero c = refl
length-replicate (suc k) c = ap suc (length-replicate k c)

length-pad_start : (k : ℕ) (ds : Text) → length ds ≤ k → length (pad_start k ds) ≡ k
unfolding pad_start
length-pad_start k ds h =
    length-append (replicate (k - length ds) b'0') ds
    ∙ omega (arith, h, length-replicate (k - length ds) b'0')

big_int-digits : (t : Text) → 1 ≤ length t → big_int (b'0' ∷ b'x' ∷ t) ≡ digits_value 0 t
unfolding big_int
big_int-digits [] h = absurd (omega (arith, h))
big_int-digits (c ∷ cs) h = refl

abbrev shifted : ℕ → ℕ
shifted n = (n + offset) % 2 ^ 160

big_int-alias_of : (n : ℕ) → (length (alias_of n) ≡ 42) × (big_int (alias_of n) ≡ some (shifted n))
unfolding alias_of pad_start big_int digits_value
big_int-alias_of n = (
  omega (arith, long),
  big_int-digits (pad_start 40 ds) (omega (arith, long))
      ∙ digits_value-zeros (40 - length ds) ds
      ∙ digits_value-write_digits 40 (shifted n) [] (omega arith),
)
  where
    ds : Text
    ds = write_digits 40 (shifted n) []

    long : length (pad_start 40 ds) ≡ 40
    long = length-pad_start 40 ds (omega (arith, length-write_digits 40 (shifted n) []))

-- The alias of an address is an address of 42 characters whose number is that of the address plus the
-- offset, modulo `2 ^ 160`, and taking the offset from it, modulo `2 ^ 160`, gives the number of the
-- address back.
pub apply_alias-Shifts :
    (a : Text) (n : ℕ)
    → big_int a ≡ some n
    → n < 2 ^ 160
    → (b : Text) × (apply_alias a ≡ some b)
      × (length b ≡ 42)
      × (big_int b ≡ some ((n + offset) % 2 ^ 160))
      × (((n + offset) % 2 ^ 160 + (2 ^ 160 - offset)) % 2 ^ 160 ≡ n)
unfolding apply_alias offset
apply_alias-Shifts a n e h = (
  alias_of n,
  ap (λ (o : Option ℕ). elim o as (λ _. Option Text) [ none ↦ none | some m ↦ some (alias_of m) ])
      e,
  (big_int-alias_of n).0,
  (big_int-alias_of n).1,
  omega (arith, h),
)
