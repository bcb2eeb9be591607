-- ===== src/Base/Triples.antt =====
-- What holds after a run: `Triple` says `Q` of the value and the state of a run that ended well, and
-- `E` of the state in which another run stopped.
use mathlib.Core.Path.{◌≡◌, refl}
use mathlib.Core.Bool.{Bool, true, false}
use mathlib.Core.Option.{Option, none, some}
use Prim.Native.String.{String}
use arb_bridge_peripherals.Base.Tests.{if◌then◌else◌}
use arb_bridge_peripherals.Base.Frames.{Moves}
use arb_bridge_peripherals.Base.Effects.{
  Script, Result, ok, err, failed, pure, throw, gets, ask, ◌>>=◌, ◌>>◌, throw_if, modify, effects,
}

abbrev pub Post : {S A : Type 0} → (A → S → Type 0) → (S → Type 0) → Result A × S → Type 0
Post Q E (ok a, t) = Q a t
Post Q E (err e, t) = E t

pub record Triple {S A : Type 0} (Q : A → S → Type 0) (E : S → Type 0) (m : Script S A) (s : S)
    : Type 0 where
  pub holds : Post Q E (m s)

module _ {S A : Type 0} {Q : A → S → Type 0} {E : S → Type 0} where
  pub Post-pure : (a : A) (s : S) → Q a s → Triple Q E (pure a) s
  unfolding effects
  Post-pure a s h = record { holds = h }

  pub Post-throw : (m : String) (s : S) → E s → Triple Q E (throw m) s
  unfolding effects
  Post-throw m s h = record { holds = h }

  pub Post-gets : (f : S → A) (s : S) → Q (f s) s → Triple Q E (gets f) s
  unfolding effects
  Post-gets f s h = record { holds = h }

  pub Post-ask :
      (f : S → Option A) (s : S) → ((a : A) → f s ≡ some a → Q a s) → E s → Triple Q E (ask f) s
  unfolding effects
  Post-ask f s h k = record { holds = at (f s) h }
    where
      at :
          (r : Option A)
          → ((a : A) → r ≡ some a → Q a s)
          → Post Q E (elim r as (λ _. Result A × S) [ none ↦ (err failed, s) | some a ↦ (ok a, s) ])
      at none h = k
      at (some a) h = h a refl

  pub Post-if :
      (b : Bool) (m n : Script S A) (s : S)
      → (b ≡ true → Triple Q E m s)
      → (b ≡ false → Triple Q E n s)
      → Triple Q E (if b then m else n) s
  Post-if true m n s h k = h refl
  Post-if false m n s h k = k refl

module _ {S A : Type 0} {P Q : A → S → Type 0} {E F : S → Type 0} where
  pub Post-weaken :
      (m : Script S A) (s : S)
      → ((a : A) (t : S) → P a t → Q a t)
      → ((t : S) → E t → F t)
      → Triple P E m s
      → Triple Q F m s
  Post-weaken m s f g h = record { holds = at (m s) h.holds }
    where
      at : (o : Result A × S) → Post P E o → Post Q F o
      at (ok a, t) h = f a t h
      at (err e, t) h = g t h

-- What a run may do to its state, as a condition after it.
module _ {S A : Type 0} (R : S → S → Type 0) (m : Script S A) (s : S) where
  pub Moves-Triple : Moves R m → Triple (λ _ t. R s t) (R s) m s
  Moves-Triple h = record { holds = at (m s) (h.moves s) }
    where
      at : (o : Result A × S) → R s o.1 → Post (λ _ t. R s t) (R s) o
      at (ok a, t) h = h
      at (err e, t) h = h

module _ {S : Type 0} {Q : Unit {0} → S → Type 0} {E : S → Type 0} where
  pub Post-throw_if :
      (c : Bool) (m : String) (s : S) → (c ≡ false → Q tt s) → E s → Triple Q E (throw_if c m) s
  unfolding effects
  Post-throw_if true m s h k = record { holds = k }
  Post-throw_if false m s h k = record { holds = h refl }

  pub Post-modify : (f : S → S) (s : S) → Q tt (f s) → Triple Q E (modify f) s
  unfolding effects
  Post-modify f s h = record { holds = h }

module _ {S A B : Type 0} {P : A → S → Type 0} {Q : B → S → Type 0} {E : S → Type 0} where
  after :
      (f : A → Script S B) (r : Result A) (t : S)
      → Post P E (r, t)
      → ((a : A) (t : S) → P a t → Triple Q E (f a) t)
      → Post Q E (elim r as (λ _. Result B × S) [ ok a ↦ f a t | err e ↦ (err e, t) ])
  after f (ok a) t h k = (k a t h).holds
  after f (err e) t h k = h

  pub Post-bind :
      (m : Script S A) (f : A → Script S B) (s : S)
      → Triple P E m s
      → ((a : A) (t : S) → P a t → Triple Q E (f a) t)
      → Triple Q E (m >>= f) s
  unfolding effects
  Post-bind m f s h k = record { holds = after f (m s).0 (m s).1 h.holds k }

  pub Post-then :
      (m : Script S A) (n : Script S B) (s : S)
      → Triple P E m s
      → ((a : A) (t : S) → P a t → Triple Q E n t)
      → Triple Q E (m >> n) s
  unfolding effects
  Post-then m n s h k = record { holds = after (λ _. n) (m s).0 (m s).1 h.holds k }
