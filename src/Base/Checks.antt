-- ===== src/Base/Checks.antt =====
-- Checks that let a run go on: what a run has seen when its checks did not stop it.
use mathlib.Core.Path.{◌≡◌, refl, ap, sym, ◌∙◌}
use mathlib.Core.Bool.{Bool, true, false}
use arb_bridge_peripherals.Base.Tests.{if◌then◌else◌}
use mathlib.Core.List.{List, [], ◌∷◌}
use Prim.Native.String.{String}
use arb_bridge_peripherals.Base.Lists.{All}
use arb_bridge_peripherals.Base.Effects.{
  Script, Result, ok, err, for_each, throw_if, any_run, effects, thrown,
}

-- A chain of tests that came out false: its first test did, and the rest went on from there.
pub any_run_cons-eq-false :
    {S : Type 0} (m : Script S Bool) (ms : List (Script S Bool)) (s : S) {t : S}
    → any_run (m ∷ ms) s ≡ (ok false, t)
    → (u : S) × (m s ≡ (ok false, u)) × (any_run ms u ≡ (ok false, t))
unfolding effects
any_run_cons-eq-false {S} m ms s {t} h = at (m s).0 (m s).1 refl h
  where
    at :
        (r : Result Bool) (u : S)
        → m s ≡ (r, u)
        → (elim r as (λ _. Result Bool × S) [
          | ok b ↦ elim b as (λ _. Result Bool × S) [ true ↦ (ok true, u) | false ↦ any_run ms u ]
          | err e ↦ (err e, u)
        ])
          ≡ (ok false, t)
        → (u : S) × (m s ≡ (ok false, u)) × (any_run ms u ≡ (ok false, t))
    at (ok true) u e g = cc (ap (λ (p : Result Bool × S). p.0) g)
    at (ok false) u e g = (u, e, g)
    at (err x) u e g = cc (ap (λ (p : Result Bool × S). p.0) g)

pub any_run_nil-eq : {S : Type 0} (s : S) {r : Result Bool} {t : S} → any_run [] s ≡ (r, t) → s ≡ t
unfolding effects
any_run_nil-eq s e = ap (λ p. p.1) e

-- A loop of guards ends well exactly when no guard holds, and it changes nothing.
module _ {S X : Type 0} (c : X → Bool) (m : X → String) where
  abbrev guards : List X → Script S (Unit {0})
  guards xs = for_each (λ x. throw_if (c x) (m x)) xs

  -- The loop with the answer to its first guard known.
  first_guard :
      (x : X) (xs : List X) (s : S) (b : Bool)
      → c x ≡ b
      → guards (x ∷ xs) s ≡ (if b then (err (thrown (m x)), s) else guards xs s)
  unfolding effects
  first_guard x xs s b e = ap (λ v. from (throw_if v (m x) s)) e ∙ at b
    where
      from : Result (Unit {0}) × S → Result (Unit {0}) × S
      from (r, t) = elim r as (λ _. Result (Unit {0}) × S) [
        | ok _ ↦ guards xs t
        | err y ↦ (err y, t)
      ]

      at :
          (v : Bool)
          → from (throw_if v (m x) s) ≡ (if v then (err (thrown (m x)), s) else guards xs s)
      at true = refl
      at false = refl

  pub guards-ok :
      (xs : List X) (s : S) {t : S} → guards xs s ≡ (ok tt, t) → All (λ x. c x ≡ false) xs
  guards-ok [] s h = tt
  guards-ok (x ∷ xs) s {t} h = at (c x) refl (λ h'. guards-ok xs s h')
    where
      at :
          (b : Bool)
          → c x ≡ b
          → (guards xs s ≡ (ok tt, t) → All (λ y. c y ≡ false) xs)
          → (c x ≡ false) × All (λ y. c y ≡ false) xs
      at true e ih =
          cc (ap (λ (p : Result (Unit {0}) × S). p.0) (sym (first_guard x xs s true e) ∙ h))
      at false e ih = (e, ih (sym (first_guard x xs s false e) ∙ h))

  pub guards-pass : (xs : List X) (s : S) → All (λ x. c x ≡ false) xs → guards xs s ≡ (ok tt, s)
  unfolding effects
  guards-pass [] s h = refl
  guards-pass (x ∷ xs) s h = first_guard x xs s false h.0 ∙ guards-pass xs s h.1
