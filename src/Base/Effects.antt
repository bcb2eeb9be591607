-- ===== src/Base/Effects.antt =====
-- A script's run: it changes a state, and it ends with a value, an uncaught error, or `process.exit`.
-- What was written before an error stays written.
use Prim.Native.String.{String}
use mathlib.Core.Bool.{Bool, true, false}
use mathlib.Core.Option.{Option, none, some}
use mathlib.Core.List.{List, [], ◌∷◌}

-- `thrown` carries the message that the source passes to `Error`, `failed` is an error that a call of
-- outside code raises, and `exited` is `process.exit()`.
pub data Stop : Type 0 where
  thrown : String → Stop
  failed : Stop
  exited : Stop

pub data Result (A : Type 0) : Type 0 where
  ok : A → Result A
  err : Stop → Result A

abbrev pub Script : Type 0 → Type 0 → Type 0
Script S A = S → Result A × S

module _ {S A : Type 0} where
  unfoldable pub pure : A → Script S A
  pure a s = (ok a, s)

  unfoldable pub throw : String → Script S A
  throw m s = (err (thrown m), s)

  unfoldable pub exit : Script S A
  exit s = (err exited, s)

  unfoldable pub gets : (S → A) → Script S A
  gets f s = (ok (f s), s)

  -- A call of outside code that answers, or raises an error.
  unfoldable pub ask : (S → Option A) → Script S A
  ask f s = elim (f s) [ none ↦ (err failed, s) | some a ↦ (ok a, s) ]

  unfoldable pub attempt : (S → Option (A × S)) → Script S A
  attempt f s = elim (f s) [ none ↦ (err failed, s) | some (a, t) ↦ (ok a, t) ]

infixl 5 ◌>>=◌ ◌>>◌
unfoldable pub ◌>>=◌ : {S A B : Type 0} → Script S A → (A → Script S B) → Script S B
◌>>=◌ m f s = let (r, t) = m s in elim r [ ok a ↦ f a t | err e ↦ (err e, t) ]

unfoldable pub ◌>>◌ : {S A B : Type 0} → Script S A → Script S B → Script S B
m >> k = m >>= λ _. k

unfoldable pub modify : {S : Type 0} → (S → S) → Script S (Unit {0})
modify f s = (ok tt, f s)

-- `if (c) { throw new Error(m) }`
unfoldable pub throw_if : {S : Type 0} → Bool → String → Script S (Unit {0})
throw_if c m s = elim c [ true ↦ (err (thrown m), s) | false ↦ (ok tt, s) ]

unfoldable pub when : {S : Type 0} → Bool → Script S (Unit {0}) → Script S (Unit {0})
when c m s = elim c [ true ↦ m s | false ↦ (ok tt, s) ]

-- `for (const x of xs) { … }`
unfoldable pub for_each : {S X : Type 0} → (X → Script S (Unit {0})) → List X → Script S (Unit {0})
for_each f [] s = (ok tt, s)
for_each f (x ∷ xs) s = let (r, t) = f x s in elim r [ ok _ ↦ for_each f xs t | err e ↦ (err e, t) ]

-- `try { m } catch { h }`; `process.exit` is not caught.
unfoldable pub catch : {S A : Type 0} → Script S A → Script S A → Script S A
catch m h s =
    let (r, t) = m s in
    elim r [
      | ok a ↦ (ok a, t)
      | err (thrown e) ↦ h t
      | err failed ↦ h t
      | err exited ↦ (err exited, t)
    ]

-- `a || b || …` over awaited values: the calls stop at the first that is true.
unfoldable pub any_run : {S : Type 0} → List (Script S Bool) → Script S Bool
any_run [] s = (ok false, s)
any_run (m ∷ ms) s =
    let (r, t) = m s in
    elim r [ ok b ↦ elim b [ true ↦ (ok true, t) | false ↦ any_run ms t ] | err e ↦ (err e, t) ]

-- Opens every operation above in a proof that computes with scripts.
unfoldable pub effects : Unit {0}
unfolding pure throw exit gets ask attempt ◌>>=◌ ◌>>◌ modify throw_if when for_each catch any_run
effects = tt
