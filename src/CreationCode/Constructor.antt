-- ===== src/CreationCode/Constructor.antt =====
-- The constructor's code, and the sizes that the test compares.
use arb_bridge_peripherals.Base.{
  ℕ, ◌+◌, ◌*◌, ◌≡◌, refl, sym, ap, ◌∙◌, Bool, true, false, ok, ◌||◌, Option, some, [], ◌∷◌, ◌++◌,
  Text, length, drop, length-append, ◌==◌, if◌then◌else◌, arith,
}
use arb_bridge_peripherals.Chain.{Network, World}
use arb_bridge_peripherals.DeploymentCheck.Rules.{
  Sees, Sees-bind, Sees-then, Sees-pure, Sees-ask, Sees-expect, Sees-weaken, Sees-throw_if,
}
use arb_bridge_peripherals.Upgrades.Signer.{starts, includes}
use arb_bridge_peripherals.CreationCode.{
  Artifact, remove_first, get_constructor_bytecode, expect_constructor_size,
}

starts-eq : (part s : Text) → starts part s ≡ true → part ++ drop (length part) s ≡ s
starts-eq [] s h = refl
starts-eq (c ∷ cs) [] h = cc
starts-eq (c ∷ cs) (d ∷ ds) h =
    let parts : (c ≡ d) × (starts cs ds ≡ true) = ground arith in
    cc (parts.0, starts-eq cs ds parts.1)

-- A text that is a part with something before and something after it; without the part, the rest.
abbrev pub Removes : Text → Text → Text → Type 0
Removes part s rest =
    (before : Text) × (after : Text) × (s ≡ before ++ (part ++ after)) × (rest ≡ before ++ after)

remove_first-Removes :
    (part s : Text) → includes part s ≡ true → Removes part s (remove_first part s)
unfolding includes remove_first
remove_first-Removes [] [] h = ([], [], refl, refl)
remove_first-Removes (p ∷ ps) [] h = cc
remove_first-Removes part (c ∷ cs) h =
    at (starts part (c ∷ cs)) refl h (λ later. remove_first-Removes part cs later)
  where
    at :
        (b : Bool)
        → starts part (c ∷ cs) ≡ b
        → (b || includes part cs) ≡ true
        → (includes part cs ≡ true → Removes part cs (remove_first part cs))
        → Removes part
            (c ∷ cs)
            (if b then drop (length part) (c ∷ cs) else c ∷ remove_first part cs)
    at true e g ih = ([], drop (length part) (c ∷ cs), sym (starts-eq part (c ∷ cs) e), refl)
    at false e g ih =
        let (before, after, f, k) = ih g in
        (c ∷ before, after, ap (λ l. c ∷ l) f, ap (λ l. c ∷ l) k)

module _ {N : Network} (artifacts : Text → Option Artifact) (w : World N) where
  -- The artifact's creation code, without `0x`, is the runtime code with a text around it.
  abbrev pub Constructor : Text → Text → Type 0
  Constructor name code =
      (a : Artifact) × (artifacts name ≡ some a)
      × Removes (drop 2 a.deployed_bytecode) (drop 2 a.bytecode) code

  get_constructor_bytecode-Sees :
      (name : Text) → Sees w (Constructor name) (get_constructor_bytecode N artifacts name)
  unfolding get_constructor_bytecode
  get_constructor_bytecode-Sees name = Sees-bind w _ _ (Sees-ask w _ (λ a e. e)) (λ a e.
      Sees-then w _ _ (Sees-throw_if w _ _) (λ _ c. Sees-pure w _ (
        a,
        e,
        remove_first-Removes (drop 2 a.deployed_bytecode) (drop 2 a.bytecode) (ground (arith, c)),
      )))

  -- The artifact's creation code, without `0x`, is the runtime code with a constructor of a number of
  -- bytes around it.
  abbrev pub HasSize : Text → ℕ → Type 0
  HasSize name size =
      (a : Artifact) × (before : Text) × (after : Text) × (artifacts name ≡ some a)
      × (drop 2 a.bytecode ≡ before ++ (drop 2 a.deployed_bytecode ++ after))
      × (length before + length after ≡ size * 2)

  -- A test of a constructor's size that passes has found the runtime code in the creation code, and
  -- what stands before and after it there is of the expected number of bytes.
  pub expect_constructor_size-HasSize :
      (name : Text) (size : ℕ) (t : World N)
      → expect_constructor_size N artifacts name size w ≡ (ok tt, t)
      → (t ≡ w) × HasSize name size
  unfolding expect_constructor_size
  expect_constructor_size-HasSize name size t h =
      (Sees-bind w {Q = λ _. HasSize name size} _ _ (get_constructor_bytecode-Sees name)
          (λ code (a, e, (before, after, f, g)).
            Sees-weaken w _
              (λ _ b. (
                a,
                before,
                after,
                e,
                f,
                sym (length-append before after) ∙ ground (arith, b, ap length g),
              ))
              (Sees-expect w (length code == size * 2)))).sees
        tt t h
