-- ===== src/Chain/Reads.antt =====
-- Tests of what a contract answers, which read and do not change.
use arb_bridge_peripherals.Base.{
  ◌≡◌, refl, sym, subst, ◌∙◌, Option, none, some, Bool, true, false, List, ◌∷◌, Text, ◌===◌,
  ===_sound, Result, ok, any_run, any_run_cons-eq-false, effects, arith, ap,
}
use arb_bridge_peripherals.Chain.Types.{Layer, Getter}
use arb_bridge_peripherals.Chain.{Network, World, differs}

module _ (N : Network) where
  differs-false :
      (l : Layer) (a : Text) (g : Getter) (x : Text) (w : World N) {u : World N}
      → differs N l a g x w ≡ (ok false, u)
      → (N.read l a g w.chain ≡ some x) × (w ≡ u)
  unfolding effects
  differs-false l a g x w {u} h = at (N.read l a g w.chain) refl
    where
      at : (r : Option Text) → N.read l a g w.chain ≡ r → (N.read l a g w.chain ≡ some x) × (w ≡ u)
      at none e = ground arith
      at (some y) e = at_value (y === x) refl
        where
          at_value : (b : Bool) → (y === x) ≡ b → (N.read l a g w.chain ≡ some x) × (w ≡ u)
          at_value true f = (e ∙ ap some (===_sound y x f), ground arith)
          at_value false f = ground arith

  -- A chain of tests that are all false: the first contract answers as expected, and the others are
  -- asked in the same state.
  pub agrees :
      (l : Layer) (a : Text) (g : Getter) (x : Text) (ms : List (World N → Result Bool × World N))
      (w : World N) {t : World N}
      → any_run (differs N l a g x ∷ ms) w ≡ (ok false, t)
      → (N.read l a g w.chain ≡ some x) × (any_run ms w ≡ (ok false, t))
  agrees l a g x ms w {t} h =
      let (u, e, r) = any_run_cons-eq-false (differs N l a g x) ms w h in
      let (answer, same) = differs-false l a g x w e in
      (answer, subst (λ v. any_run ms v ≡ (ok false, t)) (sym same) r)
