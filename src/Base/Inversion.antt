-- ===== src/Base/Inversion.antt =====
-- A run that ended well, taken apart at its first step.
use mathlib.Core.Path.{◌≡◌, refl, ap}
use mathlib.Core.Bool.{Bool, true, false}
use Prim.Native.String.{String}
use mathlib.Core.Option.{Option, some}
use native.Mathlib.Omega.{arith}
use arb_bridge_peripherals.Base.Effects.{
  Script, Result, ok, err, ◌>>=◌, ◌>>◌, throw_if, when, ask, pure, effects,
}

module _ {S A B : Type 0} where
  -- The value and the state in between.
  abbrev pub Between : Script S A → (A → Script S B) → S → B → S → Type 0
  Between m f s b t = (a : A) × (u : S) × (m s ≡ (ok a, u)) × (f a u ≡ (ok b, t))

  split :
      (f : A → Script S B) (r : Result A) (u : S) {b : B} {t : S} (m : Script S A) (s : S)
      → m s ≡ (r, u)
      → (elim r as (λ _. Result B × S) [ ok a ↦ f a u | err e ↦ (err e, u) ]) ≡ (ok b, t)
      → Between m f s b t
  split f (ok a) u m s e h = (a, u, e, h)
  split f (err x) u m s e h = cc (ap (λ (p : Result B × S). p.0) h)

  pub bind-eq-ok :
      (m : Script S A) (f : A → Script S B) (s : S) {b : B} {t : S}
      → (m >>= f) s ≡ (ok b, t)
      → Between m f s b t
  unfolding effects
  bind-eq-ok m f s h = split f (m s).0 (m s).1 m s refl h

  pub then-eq-ok :
      (m : Script S A) (k : Script S B) (s : S) {b : B} {t : S}
      → (m >> k) s ≡ (ok b, t)
      → Between m (λ _. k) s b t
  unfolding effects
  then-eq-ok m k s h = split (λ _. k) (m s).0 (m s).1 m s refl h

pub throw_if-eq-ok :
    {S : Type 0} (c : Bool) (m : String) (s : S) {u : Unit {0}} {t : S}
    → throw_if c m s ≡ (ok u, t)
    → (c ≡ false) × (s ≡ t)
unfolding effects
throw_if-eq-ok true m s h = cc (ap (λ (p : Result (Unit {0}) × _). p.0) h)
throw_if-eq-ok false m s h = (refl, ap (λ (p : Result (Unit {0}) × _). p.1) h)

module _ {S A B : Type 0} where
  -- A run stepped past a first step that is known.
  pub bind-ok :
      (m : Script S A) (f : A → Script S B) (s : S) (a : A) (u : S)
      → m s ≡ (ok a, u)
      → (m >>= f) s ≡ f a u
  unfolding effects
  bind-ok m f s a u e =
      ap
        (λ (p : Result A × S). elim p.0 as (λ _. Result B × S) [
          | ok b ↦ f b p.1
          | err x ↦ (err x, p.1)
        ])
        e

  pub then-ok :
      (m : Script S A) (k : Script S B) (s : S) (a : A) (u : S) → m s ≡ (ok a, u) → (m >> k) s ≡ k u
  unfolding effects
  then-ok m k s a u e = bind-ok m (λ _. k) s a u e

pub ask-some :
    {S A : Type 0} (f : S → Option A) (s : S) (a : A) → f s ≡ some a → ask f s ≡ (ok a, s)
unfolding effects
ask-some f s a e = rw (e, ask)

pub ask-eq-ok :
    {S A : Type 0} (f : S → Option A) (s : S) {a : A} {t : S}
    → ask f s ≡ (ok a, t)
    → (f s ≡ some a) × (s ≡ t)
unfolding effects
ask-eq-ok f s h = ground arith

pub when-false :
    {S : Type 0} (c : Bool) (m : Script S (Unit {0})) (s : S) → c ≡ false → when c m s ≡ (ok tt, s)
unfolding effects
when-false true m s e = cc
when-false false m s e = refl

pub when-true :
    {S : Type 0} (c : Bool) (m : Script S (Unit {0})) (s : S) → c ≡ true → when c m s ≡ m s
unfolding effects
when-true true m s e = refl
when-true false m s e = cc

-- Where two runs that are equal end.
pub state_of : {S A : Type 0} {p q : Result A × S} → p ≡ q → p.1 ≡ q.1
state_of e = ap (λ p. p.1) e

pub pure-state : {S A : Type 0} (a : A) (s : S) {r : Result A} {t : S} → pure a s ≡ (r, t) → s ≡ t
unfolding effects
pure-state a s e = state_of e

pub pure-value : {S A : Type 0} (a : A) (s : S) {b : A} {t : S} → pure a s ≡ (ok b, t) → a ≡ b
unfolding effects
pure-value {S} {A} a s e = cc (ap (λ (p : Result A × S). p.0) e)
