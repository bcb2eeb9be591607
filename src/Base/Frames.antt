-- ===== src/Base/Frames.antt =====
-- What a script may do to its state, put together from what its steps may do: `Moves R m` says that
-- each run of `m`, also one that stops with an error, goes from a state to one that `R` relates to it.
use mathlib.Core.Bool.{Bool, true, false}
use mathlib.Core.List.{List, [], ◌∷◌}
use mathlib.Core.Option.{Option, none, some}
use Prim.Native.String.{String}
use arb_bridge_peripherals.Base.Tests.{if◌then◌else◌}
use arb_bridge_peripherals.Base.Lists.{All}
use arb_bridge_peripherals.Base.Effects.{
  Script, Result, ok, err, thrown, failed, exited, pure, throw, exit, gets, ask, ◌>>=◌, ◌>>◌,
  throw_if, when, for_each, catch, any_run, effects,
}

pub record IsPreorder {S : Type 0} (R : S → S → Type 0) : Type 0 where
  pub reflexive : (s : S) → R s s
  pub transitive : (s t u : S) → R s t → R t u → R s u

pub record Moves {S A : Type 0} (R : S → S → Type 0) (m : Script S A) : Type 0 where
  pub moves : (s : S) → R s (m s).1

-- An invariant as a relation.
abbrev pub Keeps : {S : Type 0} → (S → Type 0) → S → S → Type 0
Keeps P s t = P s → P t

pub Keeps-preorder : {S : Type 0} (P : S → Type 0) → IsPreorder (Keeps P)
Keeps-preorder P = record { reflexive = λ s h. h; transitive = λ s t u f g h. g (f h) }

module _ {S A : Type 0} {R : S → S → Type 0} (o : IsPreorder R) where
  pub Moves-pure : (a : A) → Moves R (pure a)
  unfolding effects
  Moves-pure a = record { moves = λ s. o.reflexive s }

  pub Moves-throw : (m : String) → Moves R (throw {A = A} m)
  unfolding effects
  Moves-throw m = record { moves = λ s. o.reflexive s }

  pub Moves-exit : Moves R (exit {A = A})
  unfolding effects
  Moves-exit = record { moves = λ s. o.reflexive s }

  pub Moves-gets : (f : S → A) → Moves R (gets f)
  unfolding effects
  Moves-gets f = record { moves = λ s. o.reflexive s }

  pub Moves-ask : (f : S → Option A) → Moves R (ask f)
  unfolding effects
  Moves-ask f = record { moves = λ s. at (f s) s }
    where
      at :
          (r : Option A) (s : S)
          → R s (elim r as (λ _. Result A × S) [ none ↦ (err failed, s) | some a ↦ (ok a, s) ]).1
      at none s = o.reflexive s
      at (some a) s = o.reflexive s

  pub Moves-if :
      (b : Bool) (m n : Script S A) → Moves R m → Moves R n → Moves R (if b then m else n)
  Moves-if true m n hm hn = hm
  Moves-if false m n hm hn = hn

  pub Moves-catch : (m h : Script S A) → Moves R m → Moves R h → Moves R (catch m h)
  unfolding effects
  Moves-catch m h hm hh = record { moves = λ s. at s (m s).0 (m s).1 (hm.moves s) }
    where
      at :
          (s : S) (r : Result A) (t : S)
          → R s t
          → R s
              (elim r as (λ _. Result A × S) [
                | ok a ↦ (ok a, t)
                | err e ↦ elim e as (λ _. Result A × S) [
                  | thrown _ ↦ h t
                  | failed ↦ h t
                  | exited ↦ (err exited, t)
                ]
              ]).1
      at s (ok a) t p = p
      at s (err (thrown e)) t p = o.transitive s t (h t).1 p (hh.moves t)
      at s (err failed) t p = o.transitive s t (h t).1 p (hh.moves t)
      at s (err exited) t p = p

module _ {S : Type 0} {R : S → S → Type 0} (o : IsPreorder R) where
  -- The run after a first step that has ended with `r` in `t`.
  bind_at :
      {A B : Type 0} (f : A → Script S B)
      → ((a : A) → Moves R (f a))
      → (s : S) (r : Result A) (t : S) → R s t
      → R s (elim r as (λ _. Result B × S) [ ok a ↦ f a t | err e ↦ (err e, t) ]).1
  bind_at f hf s (ok a) t p = o.transitive s t (f a t).1 p ((hf a).moves t)
  bind_at f hf s (err e) t p = p

  pub Moves-bind :
      {A B : Type 0} (m : Script S A) (f : A → Script S B)
      → Moves R m
      → ((a : A) → Moves R (f a))
      → Moves R (m >>= f)
  unfolding effects
  Moves-bind m f hm hf = record { moves = λ s. bind_at f hf s (m s).0 (m s).1 (hm.moves s) }

  pub Moves-then :
      {A B : Type 0} (m : Script S A) (k : Script S B) → Moves R m → Moves R k → Moves R (m >> k)
  unfolding effects
  Moves-then m k hm hk = record {
    moves = λ s. bind_at (λ _. k) (λ _. hk) s (m s).0 (m s).1 (hm.moves s);
  }

  pub Moves-throw_if : (c : Bool) (m : String) → Moves R (throw_if c m)
  unfolding effects
  Moves-throw_if true m = record { moves = λ s. o.reflexive s }
  Moves-throw_if false m = record { moves = λ s. o.reflexive s }

  pub Moves-when : (c : Bool) (m : Script S (Unit {0})) → Moves R m → Moves R (when c m)
  unfolding effects
  Moves-when true m h = record { moves = h.moves }
  Moves-when false m h = record { moves = λ s. o.reflexive s }

  pub Moves-for_each :
      {X : Type 0} (f : X → Script S (Unit {0})) (xs : List X)
      → ((x : X) → Moves R (f x))
      → Moves R (for_each f xs)
  unfolding effects
  Moves-for_each f [] h = record { moves = λ s. o.reflexive s }
  Moves-for_each f (x ∷ xs) h = record {
    moves = λ s.
        bind_at (λ _. for_each f xs) (λ _. Moves-for_each f xs h) s (f x s).0 (f x s).1
          ((h x).moves s);
  }

  -- A loop over known elements, each step of which moves so.
  pub Moves-for_each_known :
      {X : Type 0} (f : X → Script S (Unit {0})) (xs : List X)
      → All (λ x. Moves R (f x)) xs
      → Moves R (for_each f xs)
  unfolding effects
  Moves-for_each_known f [] h = record { moves = λ s. o.reflexive s }
  Moves-for_each_known f (x ∷ xs) h = record {
    moves = λ s.
        bind_at (λ _. for_each f xs) (λ _. Moves-for_each_known f xs h.1) s (f x s).0 (f x s).1
          (h.0.moves s);
  }

  pub Moves-any_run_nil : Moves R (any_run [])
  unfolding effects
  Moves-any_run_nil = record { moves = λ s. o.reflexive s }

  pub Moves-any_run_cons :
      (m : Script S Bool) (ms : List (Script S Bool))
      → Moves R m
      → Moves R (any_run ms)
      → Moves R (any_run (m ∷ ms))
  unfolding effects
  Moves-any_run_cons m ms hm hms = record { moves = λ s. at s (m s).0 (m s).1 (hm.moves s) }
    where
      at :
          (s : S) (r : Result Bool) (t : S)
          → R s t
          → R s
              (elim r as (λ _. Result Bool × S) [
                | ok b ↦ elim b as (λ _. Result Bool × S) [
                  | true ↦ (ok true, t)
                  | false ↦ any_run ms t
                ]
                | err e ↦ (err e, t)
              ]).1
      at s (ok true) t p = p
      at s (ok false) t p = o.transitive s t (any_run ms t).1 p (hms.moves t)
      at s (err e) t p = p

pub ruleset moves_rules = (
  Moves-pure, Moves-throw, Moves-exit, Moves-gets, Moves-ask, Moves-if, Moves-catch, Moves-bind,
  Moves-then, Moves-throw_if, Moves-when, Moves-for_each, Moves-any_run_nil, Moves-any_run_cons,
)
