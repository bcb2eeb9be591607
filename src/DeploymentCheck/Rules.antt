-- ===== src/DeploymentCheck/Rules.antt =====
-- Scripts that only read: `Sees w P m` says that `m`, run in `w`, changes nothing, and that what it
-- answers has `P`, if it ends well.
use arb_bridge_peripherals.Base.{
  ◌≡◌, refl, sym, ap, subst, ◌∙◌, String, Bool, true, false, not, Option, some, Text, Result, ok,
  pure, ask, ◌>>=◌, ◌>>◌, when, if◌then◌else◌, bind-eq-ok, then-eq-ok, ask-eq-ok, throw_if,
  throw_if-eq-ok, pure-state, pure-value, same_address, to_lower_case, same_address-eq, IsPreorder,
  Moves, ◌===◌, ===_sound, effects, arith,
}
use arb_bridge_peripherals.Chain.{Network, World, Run, read}
use arb_bridge_peripherals.Chain.Types.{Layer, Getter}
use arb_bridge_peripherals.DeploymentCheck.{expect, expect_same, expect_zero, expect_not_zero}
use arb_bridge_peripherals.Chain.FeeToken.{address_zero}

module _ {N : Network} (w : World N) where
  pub record Sees {A : Type 0} (P : A → Type 0) (m : Run N A) : Type 0 where
    pub sees : (a : A) (t : World N) → m w ≡ (ok a, t) → (t ≡ w) × P a

  pub Sees-bind :
      {A B : Type 0} {P : A → Type 0} {Q : B → Type 0} (m : Run N A) (f : A → Run N B)
      → Sees P m
      → ((a : A) → P a → Sees Q (f a))
      → Sees Q (m >>= f)
  Sees-bind m f h k = record {
    sees = λ b t e.
        let (a, u, e₁, e₂) = bind-eq-ok m f w e in
        let (same, p) = h.sees a u e₁ in (k a p).sees b t (subst (λ v. f a v ≡ (ok b, t)) same e₂);
  }

  pub Sees-then :
      {A B : Type 0} {P : A → Type 0} {Q : B → Type 0} (m : Run N A) (n : Run N B)
      → Sees P m
      → ((a : A) → P a → Sees Q n)
      → Sees Q (m >> n)
  Sees-then m n h k = record {
    sees = λ b t e.
        let (a, u, e₁, e₂) = then-eq-ok m n w e in
        let (same, p) = h.sees a u e₁ in (k a p).sees b t (subst (λ v. n v ≡ (ok b, t)) same e₂);
  }

  pub Sees-weaken :
      {A : Type 0} {P Q : A → Type 0} (m : Run N A) → ((a : A) → P a → Q a) → Sees P m → Sees Q m
  Sees-weaken m f h = record { sees = λ a t e. let (same, p) = h.sees a t e in (same, f a p) }

  pub Sees-pure : {A : Type 0} {P : A → Type 0} (a : A) → P a → Sees P (pure a)
  Sees-pure {A} {P} a h = record {
    sees = λ b t e. (sym (pure-state a w e), subst P (pure-value a w e) h);
  }

  pub Sees-ask :
      {A : Type 0} {P : A → Type 0} (f : World N → Option A)
      → ((a : A) → f w ≡ some a → P a)
      → Sees P (ask f)
  Sees-ask f k = record {
    sees = λ a t e. let (found, same) = ask-eq-ok f w e in (sym same, k a found);
  }

  pub Sees-throw_if : (b : Bool) (m : String) → Sees (λ _. b ≡ false) (throw_if b m)
  Sees-throw_if b m = record {
    sees = λ a t e. let (c, same) = throw_if-eq-ok b m w e in (sym same, c);
  }

  pub Sees-expect : (b : Bool) → Sees (λ _. b ≡ true) (expect N b)
  unfolding expect
  Sees-expect b = record {
    sees = λ a t e.
        let (c, same) = throw_if-eq-ok (not b) "AssertionError" w e in (sym same, ground arith);
  }

  pub Sees-if :
      {A : Type 0} {P : A → Type 0} (b : Bool) (m n : Run N A)
      → (b ≡ true → Sees P m)
      → (b ≡ false → Sees P n)
      → Sees P (if b then m else n)
  Sees-if true m n h k = h refl
  Sees-if false m n h k = k refl

  pub Sees-when :
      {P : Type 0} (b : Bool) (m : Run N (Unit {0}))
      → Sees (λ _. P) m
      → Sees (λ _. b ≡ true → P) (when b m)
  unfolding effects
  Sees-when {P} true m h = record { sees = λ a t e. let (same, p) = h.sees a t e in (same, λ _. p) }
  Sees-when {P} false m h = record {
    sees = λ a t e. (sym (ap (λ (r : Result (Unit {0}) × World N). r.1) e), λ b. cc);
  }

  -- One check after the other.
  pub Sees-also :
      {A : Type 0} {P Q : Type 0} (m : Run N (Unit {0})) (n : Run N A)
      → Sees (λ _. P) m
      → Sees (λ _. Q) n
      → Sees (λ _. P × Q) (m >> n)
  Sees-also m n h k = Sees-then m n h (λ _ p. Sees-weaken n (λ _ q. (p, q)) k)

  -- A value that is read for what follows.
  pub Sees-read :
      {B : Type 0} {Q : B → Type 0} (l : Layer) (a : Text) (g : Getter) (f : Text → Run N B)
      → ((v : Text) → N.read l a g w.chain ≡ some v → Sees Q (f v))
      → Sees Q (read N l a g >>= f)
  Sees-read l a g f k = Sees-bind (read N l a g) f (Sees-ask _ (λ v e. e)) k

  -- A view function answers an address, up to the case of its letters.
  abbrev pub Answers : Layer → Text → Getter → Text → Type 0
  Answers l a g x =
      (v : Text) × (N.read l a g w.chain ≡ some v) × (to_lower_case v ≡ to_lower_case x)

  pub Sees-expect_same :
      (l : Layer) (a : Text) (g : Getter) (x : Text)
      → Sees (λ _. Answers l a g x) (expect_same N l a g x)
  unfolding expect_same
  Sees-expect_same l a g x = Sees-bind (read N l a g) _ (Sees-ask _ (λ v e. e)) (λ v e.
      Sees-weaken {Q = λ _. Answers l a g x} _ (λ _ b. (v, e, same_address-eq v x b))
        (Sees-expect (same_address v x)))

  pub Sees-expect_zero :
      (l : Layer) (a : Text) (g : Getter)
      → Sees (λ _. Answers l a g address_zero) (expect_zero N l a g)
  unfolding expect_zero to_lower_case address_zero
  Sees-expect_zero l a g = Sees-read l a g _ (λ v e.
      Sees-weaken _ (λ _ b. (v, e, ===_sound (to_lower_case v) address_zero b))
        (Sees-expect (to_lower_case v === address_zero)))

  -- An address that is not the zero address.
  abbrev pub AnswersSome : Layer → Text → Getter → Type 0
  AnswersSome l a g =
      (v : Text) × (N.read l a g w.chain ≡ some v) × ((to_lower_case v === address_zero) ≡ false)

  pub Sees-expect_not_zero :
      (l : Layer) (a : Text) (g : Getter) → Sees (λ _. AnswersSome l a g) (expect_not_zero N l a g)
  unfolding expect_not_zero
  Sees-expect_not_zero l a g = Sees-read l a g _ (λ v e.
      Sees-weaken _ (λ _ b. (v, e, ground arith))
        (Sees-expect (not (to_lower_case v === address_zero))))

pub Unchanged-preorder : (N : Network) → IsPreorder (λ (s t : World N). t ≡ s)
Unchanged-preorder N = record { reflexive = λ s. refl; transitive = λ s t u p q. q ∙ p }

-- Steps of which nothing but that they only read matters.
pub Sees-unchanged :
    {N : Network} {A : Type 0} (w : World N) (m : Run N A)
    → Moves (λ (s t : World N). t ≡ s) m
    → Sees w (λ _. Unit {0}) m
Sees-unchanged w m h = record { sees = λ a t e. (sym (ap (λ r. r.1) e) ∙ h.moves w, tt) }
