-- ===== src/Usdc/Linking/Layout.antt =====
-- The length of the linked bytecode.
use arb_bridge_peripherals.Base.{
  ℕ, zero, suc, ◌-◌, ◌≤◌, ◌≡◌, refl, ◌∙◌, Bool, true, false, [], ◌∷◌, ◌++◌, Text, length, arith,
  codes, length-append,
}
use arb_bridge_peripherals.Usdc.Linking.{
  starts_with, split_join, placeholder, strip_0x, link_library,
}

length-starts_with : (p s : Text) → starts_with p s ≡ true → length p ≤ length s
unfolding starts_with
length-starts_with [] s h = ground arith
length-starts_with (c ∷ p) [] h = cc
length-starts_with (c ∷ p) (d ∷ s) h = grind (arith, length-starts_with p s)

-- A replacement that is as long as what it replaces keeps the length.
length-split_join :
    (p r : Text) (skip : ℕ) (s : Text)
    → length r ≡ length p
    → 1 ≤ length p
    → skip ≤ length s
    → length (split_join p r skip s) ≡ length s - skip
unfolding split_join
length-split_join p r skip [] e n k = ground arith
length-split_join p r (suc skip) (c ∷ s) e n k =
    length-split_join p r skip s e n (omega arith) ∙ omega arith
length-split_join p r zero (c ∷ s) e n k =
    at (starts_with p (c ∷ s)) refl (λ k' h. length-split_join p r k' s e n h)
  where
    at :
        (b : Bool)
        → starts_with p (c ∷ s) ≡ b
        → ((k' : ℕ) → k' ≤ length s → length (split_join p r k' s) ≡ length s - k')
        → length (elim b as (λ _. Text) [
          | true ↦ r ++ split_join p r (length p - 1) s
          | false ↦ c ∷ split_join p r zero s
        ])
          ≡ length (c ∷ s) - zero
    at true q ih =
        let fits : length p ≤ length (c ∷ s) = length-starts_with p (c ∷ s) q in
        let rest : length (split_join p r (length p - 1) s) ≡ length s - (length p - 1) =
          ih (length p - 1) (omega arith) in
        length-append r (split_join p r (length p - 1) s) ∙ omega arith
    at false q ih =
        let rest : length (split_join p r zero s) ≡ length s - zero = ih zero (omega arith) in
        omega arith

-- For a library's address of 42 characters that starts with `0x`, the linked bytecode is as long as the
-- one with placeholders.
pub length-link_library :
    (bytecode library : Text)
    → starts_with (codes "0x") library ≡ true
    → length library ≡ 42
    → length (link_library bytecode library) ≡ length bytecode
unfolding link_library strip_0x starts_with
length-link_library bytecode library h e =
    length-split_join placeholder (strip_0x library) 0 bytecode (stripped library h e) (omega arith)
      (omega arith)
    ∙ omega arith
  where
    stripped :
        (l : Text) → starts_with (codes "0x") l ≡ true → length l ≡ 42 → length (strip_0x l) ≡ 40
    stripped [] h e = cc
    stripped (a ∷ []) h e = omega arith
    stripped (a ∷ b ∷ l) h e = ground arith
