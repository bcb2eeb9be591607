-- ===== src/Base/Texts.antt =====
-- Text that the scripts walk, as the list of its code points: addresses and hexadecimal data.
-- All of it is ASCII, on which `toLowerCase` moves the letters A to Z.
use Prim.Native.Nat.{ℕ, ◌+◌}
use Prim.Native.Char.{code}
use Prim.Native.String.{String}
use mathlib.Core.Path.{◌≡◌, refl}
use mathlib.Core.Bool.{Bool, true, false, ◌&&◌}
use mathlib.Core.List.{List, [], ◌∷◌, map}
use native.Mathlib.Omega.{arith}
use arb_bridge_peripherals.Base.Tests.{leb, ◌==◌, if◌then◌else◌}

abbrev pub Text : Type 0
Text = List ℕ

abbrev pub codes : String → Text
codes String.[] = []
codes (String.◌∷◌ c s) = code c ∷ codes s

-- `===` on texts
infix 50 ◌===◌
unfoldable pub ◌===◌ : Text → Text → Bool
[] === [] = true
[] === (y ∷ ys) = false
(x ∷ xs) === [] = false
(x ∷ xs) === (y ∷ ys) = x == y && xs === ys

pub ===_sound : (s t : Text) → (s === t) ≡ true → s ≡ t
unfolding ◌===◌
===_sound [] [] h = refl
===_sound [] (y ∷ ys) h = cc
===_sound (x ∷ xs) [] h = cc
===_sound (x ∷ xs) (y ∷ ys) h = ground (arith, ===_sound xs ys)

pub ===_refl : (s : Text) → (s === s) ≡ true
unfolding ◌===◌
===_refl [] = refl
===_refl (x ∷ xs) = ground (arith, ===_refl xs)

unfoldable pub lower_code : ℕ → ℕ
lower_code c = if leb b'A' c && leb c b'Z' then c + 32 else c

pub lower_code_idem : (c : ℕ) → lower_code (lower_code c) ≡ lower_code c
unfolding lower_code
lower_code_idem c = ground arith

-- `toLowerCase`
unfoldable pub to_lower_case : Text → Text
unfolding lower_code
to_lower_case = map lower_code

pub to_lower_case_idem : (s : Text) → to_lower_case (to_lower_case s) ≡ to_lower_case s
unfolding to_lower_case
to_lower_case_idem [] = refl
to_lower_case_idem (c ∷ s) = cc (lower_code_idem c, to_lower_case_idem s)

-- `a.toLowerCase() === b.toLowerCase()`, the way the scripts compare addresses
unfoldable pub same_address : Text → Text → Bool
unfolding ◌===◌ to_lower_case
same_address a b = to_lower_case a === to_lower_case b

pub same_address-eq : (a b : Text) → same_address a b ≡ true → to_lower_case a ≡ to_lower_case b
unfolding same_address
same_address-eq a b h = ===_sound (to_lower_case a) (to_lower_case b) h

pub eq-same_address : (a b : Text) → to_lower_case a ≡ to_lower_case b → same_address a b ≡ true
unfolding same_address
eq-same_address a b e = rw e (===_refl (to_lower_case b))
