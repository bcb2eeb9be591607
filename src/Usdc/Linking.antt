-- ===== src/Usdc/Linking.antt =====
-- How `_deployUsdcLogic` puts the address of the signature checker into the token's bytecode.
pub mod Layout
use arb_bridge_peripherals.Base.{
  ℕ, zero, suc, ◌+◌, ◌-◌, Bool, true, false, List, [], ◌∷◌, ◌++◌, Text, codes, ◌===◌, ◌==◌, ◌&&◌,
  length, drop, if◌then◌else◌,
}

unfoldable pub starts_with : Text → Text → Bool
starts_with [] s = true
starts_with (c ∷ p) [] = false
starts_with (c ∷ p) (d ∷ s) = c == d && starts_with p s

-- `text.split(p).join(r)` for a `p` that is not empty: each occurrence from the left makes room for
-- `r`, and the codes that it covers are skipped.
unfoldable pub split_join : Text → Text → ℕ → Text → Text
split_join p r skip [] = []
split_join p r (suc skip) (c ∷ s) = split_join p r skip s
split_join p r zero (c ∷ s) = elim (starts_with p (c ∷ s)) [
  | true ↦ r ++ split_join p r (length p - 1) s
  | false ↦ c ∷ split_join p r zero s
]

abbrev pub placeholder : Text
placeholder = codes "__$715109b5d747ea58b675c6ea3f0dba8c60$__"

-- `address.replace(/^0x/, '')`
unfoldable pub strip_0x : Text → Text
strip_0x address = if starts_with (codes "0x") address then drop 2 address else address

unfoldable pub link_library : Text → Text → Text
unfolding split_join strip_0x starts_with
link_library bytecode library = split_join placeholder (strip_0x library) 0 bytecode
