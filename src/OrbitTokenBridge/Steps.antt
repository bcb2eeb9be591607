-- ===== src/OrbitTokenBridge/Steps.antt =====
-- Rules for a test that passes: a call leaves its transaction in the log, a read answers in the state in
-- which it is asked, and an expectation that did not fail holds.
use arb_bridge_peripherals.Base.{
  ℕ, ◌≡◌, refl, sym, ap, ◌∙◌, Option, none, some, Bool, true, false, List, [], ◌∷◌, ◌++◌, Text,
  Result, ok, err, failed, Triple, Post, Post-bind, Post-then, Post-weaken, append_assoc, subst,
  Post-pure, pure, ask, ◌>>=◌, ◌>>◌, effects, Moves, Moves-Triple, moves_rules, arith,
}
use arb_bridge_peripherals.Amount.{get_scaled_amount, scaled_amount}
use arb_bridge_peripherals.Chain.Types.{Layer, parent, NumberGetter, Calldata, Event, sent}
use arb_bridge_peripherals.Chain.{Network, World, Run, send, random_address}
use arb_bridge_peripherals.Chain.Logs.{SameLog, SameLog-preorder, wait_for_status-SameLog}
use arb_bridge_peripherals.DeploymentCheck.{expect}
use arb_bridge_peripherals.OrbitTokenBridge.{
  call, first_message, expect_l2_msg, native_amount, native_balance,
}

abbrev pub sent_by : Layer → Text → Text → ℕ → Calldata → Event
sent_by l from to value calldata =
    sent l from (record { to = to; value = value; calldata = calldata })

module _ (N : Network) where
  -- What holds of a run that passes; nothing is said of another.
  abbrev pub Passes : {A : Type 0} → (A → World N → Type 0) → Run N A → World N → Type 0
  Passes Q m w = Triple Q (λ _. Unit {0}) m w

  call-log :
      (l : Layer) (from to : Text) (value : ℕ) (c : Calldata) (w : World N)
      → Passes (λ _ t. t.log ≡ w.log ++ sent_by l from to value c ∷ []) (call N l from to value c) w
  unfolding call send
  call-log l from to value c w = record { holds = ground arith }

  module _ {A B : Type 0} {Q : B → World N → Type 0} where
    pub seen :
        (f : World N → Option A) (k : A → Run N B) (w : World N)
        → ((a : A) → f w ≡ some a → Passes Q (k a) w)
        → Passes Q (ask f >>= k) w
    unfolding effects
    seen f k w h = record { holds = at (f w) refl }
      where
        at :
            (r : Option A)
            → f w ≡ r
            → Post Q
                (λ _. Unit {0})
                (elim (elim r as (λ _. Result A × World N) [
                  | none ↦ (err failed, w)
                  | some a ↦ (ok a, w)
                ]).0
                  as (λ _. Result B × World N) [
                    | ok a ↦
                        k a
                          (elim r as (λ _. Result A × World N) [
                            | none ↦ (err failed, w)
                            | some a ↦ (ok a, w)
                          ]).1
                    | err e ↦ (
                      err e,
                      (elim r as (λ _. Result A × World N) [
                        | none ↦ (err failed, w)
                        | some a ↦ (ok a, w)
                      ]).1,
                    )
                  ])
        at none e = tt
        at (some a) e = (h a e).holds

    pub stepped :
        (m : Run N A) (k : A → Run N B) (w : World N) {P : A → World N → Type 0}
        → Passes P m w
        → ((a : A) (t : World N) → P a t → Passes Q (k a) t)
        → Passes Q (m >>= k) w
    stepped m k w h f = Post-bind m k w h f

    pub stepped_then :
        (m : Run N A) (n : Run N B) (w : World N) {P : A → World N → Type 0}
        → Passes P m w
        → ((a : A) (t : World N) → P a t → Passes Q n t)
        → Passes Q (m >> n) w
    stepped_then m n w h f = Post-then m n w h f

  module _ {B : Type 0} {Q : B → World N → Type 0} where
    pub expected :
        (b : Bool) (n : Run N B) (w : World N)
        → (b ≡ true → Passes Q n w)
        → Passes Q (expect N b >> n) w
    unfolding expect effects
    expected true n w h = record { holds = (h refl).holds }
    expected false n w h = record { holds = tt }

    pub called :
        (l : Layer) (from to : Text) (value : ℕ) (c : Calldata) (k : Text → Run N B) (w : World N)
        → ((h : Text) (t : World N)
            → t.log ≡ w.log ++ sent_by l from to value c ∷ []
            → Passes Q (k h) t)
        → Passes Q (call N l from to value c >>= k) w
    called l from to value c k w h =
        stepped (call N l from to value c) k w (call-log l from to value c w) h

    pub called_then :
        (l : Layer) (from to : Text) (value : ℕ) (c : Calldata) (n : Run N B) (w : World N)
        → ((t : World N) → t.log ≡ w.log ++ sent_by l from to value c ∷ [] → Passes Q n t)
        → Passes Q (call N l from to value c >> n) w
    called_then l from to value c n w h =
        stepped_then (call N l from to value c) n w (call-log l from to value c w) (λ _ t e. h t e)

  pub expected_last :
      {Q : Unit {0} → World N → Type 0} (b : Bool) (w : World N)
      → (b ≡ true → Q tt w)
      → Passes Q (expect N b) w
  unfolding expect effects
  expected_last true w h = record { holds = h refl }
  expected_last false w h = record { holds = tt }

  pub expect_l2_msg-log :
      (tx : Text) (w : World N) → Passes (λ _ t. t.log ≡ w.log) (expect_l2_msg N tx) w
  unfolding expect_l2_msg first_message expect
  expect_l2_msg-log tx w =
      Post-weaken (expect_l2_msg N tx) w (λ _ t e. e) (λ _ _. tt)
        (Moves-Triple (SameLog N) (expect_l2_msg N tx) w moved)
    where
      moved : Moves (SameLog N) (expect_l2_msg N tx)
      moved = search (moves_rules, SameLog-preorder, wait_for_status-SameLog) depth 20

  pub random_address-log : (w : World N) → Passes (λ _ t. t.log ≡ w.log) (random_address N) w
  unfolding random_address
  random_address-log w = record { holds = refl }

  -- Two parts of a run, one after the other.
  pub log_then :
      (w t u : World N) (xs ys : List Event)
      → t.log ≡ w.log ++ xs
      → u.log ≡ t.log ++ ys
      → u.log ≡ w.log ++ (xs ++ ys)
  log_then w t u xs ys p q = q ∙ ap (λ x. x ++ ys) p ∙ append_assoc w.log xs ys

  -- The chain's currency, ETH or a token, as it stands in the parent chain's state.
  pub HasNative : Option Text → Text → N.State → ℕ → Type 0
  HasNative none account x n = N.read_number parent account NumberGetter.balance x ≡ some n
  HasNative (some native) account x n =
      N.read_number parent native (NumberGetter.balance_of account) x ≡ some n

  amount-same :
      (native : Option Text) (amount : ℕ) (w : World N)
      → Passes (λ _ t. t ≡ w) (native_amount N native amount) w
  unfolding native_amount get_scaled_amount
  amount-same none amount w = Post-pure amount w refl
  amount-same (some native) amount w =
      seen (λ t. N.read_number parent native NumberGetter.decimals t.chain)
        (λ d. pure (scaled_amount d amount)) w (λ d e. Post-pure (scaled_amount d amount) w refl)

  module _ {B : Type 0} {Q : B → World N → Type 0} where
    pub native_seen :
        (native : Option Text) (account : Text) (k : ℕ → Run N B) (w : World N)
        → ((n : ℕ) → HasNative native account w.chain n → Passes Q (k n) w)
        → Passes Q (native_balance N native account >>= k) w
    unfolding native_balance HasNative
    native_seen none account k w h =
        seen (λ t. N.read_number parent account NumberGetter.balance t.chain) k w h
    native_seen (some native) account k w h =
        seen (λ t. N.read_number parent native (NumberGetter.balance_of account) t.chain) k w h

    pub amount_seen :
        (native : Option Text) (amount : ℕ) (k : ℕ → Run N B) (w : World N)
        → ((n : ℕ) → Passes Q (k n) w)
        → Passes Q (native_amount N native amount >>= k) w
    amount_seen native amount k w h =
        stepped (native_amount N native amount) k w {P = λ _ t. t ≡ w} (amount-same native amount w)
          (λ n t e. subst (λ x. Passes Q (k n) x) (sym e) (h n))
