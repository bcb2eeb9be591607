-- ===== src/Blockscout/Outcomes.antt =====
-- What the answers of the explorer and the deployer's key have to do with how the run ends.
use arb_bridge_peripherals.Base.{
  String, ◌≡◌, refl, ap, ◌∙◌, Option, none, some, List, Text, Result, ok, err, Stop, effects, arith,
  sym, Post, Triple, Post-then, Post-bind, Post-ask, Post-throw_if,
}
use mathlib.Core.Path.{fun_ext}
use arb_bridge_peripherals.Chain.{Network, World, submit}
use arb_bridge_peripherals.Blockscout.{
  Explorer, Verify, verify_contract_code, deployer_wallet, verify_all, verify_on_blockscout,
}
use arb_bridge_peripherals.Usdc.Env.{Env}

module _ (N : Network) where
  verify_contract_code-submit :
      (x : Explorer) (name : String) (a : Text) (args : List Text) (w : World N)
      → verify_contract_code N x name a args w ≡ submit N name a args w
  unfolding verify_contract_code submit effects
  verify_contract_code-submit x name a args w = ground arith

  -- A call of `_verifyContract` does the same whatever the explorer answers.
  verify_contract_code-any : (x y : Explorer) → verify_contract_code N x ≡ verify_contract_code N y
  verify_contract_code-any x y = fun_ext (λ name. fun_ext (λ a. fun_ext (λ args. fun_ext (λ w.
      verify_contract_code-submit x name a args w
      ∙ sym (verify_contract_code-submit y name a args w)))))

  -- How the verification ends, and what it submits, does not depend on what the explorer answers.
  pub verify_on_blockscout-any :
      (x y : Explorer) (env : Env) (w : World N)
      → verify_on_blockscout N x env w ≡ verify_on_blockscout N y env w
  unfolding verify_on_blockscout
  verify_on_blockscout-any x y env w = ap (λ v. verify_all N v env w) (verify_contract_code-any x y)

  stopped :
      (w : World N) (o : Result (Unit {0}) × World N)
      → Post (λ _ _. ⊥) (λ t. t ≡ w) o
      → (e : Stop) × (o ≡ (err e, w))
  stopped w (ok a, t) h = absurd h
  stopped w (err e, t) h = (e, ap (λ s. (err e, s)) h)

  without_key-Triple :
      (v : Verify N) (env : Env) (w : World N)
      → env "DEPLOYER_KEY" ≡ none
      → Triple (λ _ _. ⊥) (λ t. t ≡ w) (verify_all N v env) w
  unfolding verify_all deployer_wallet
  without_key-Triple v env w h =
      Post-then {P = λ _ t. t ≡ w} _ _ w (Post-throw_if _ _ w (λ b. refl) refl) (λ _ t same.
        Post-bind {P = λ _ _. ⊥} _ _ t (Post-ask _ t (λ a e. no_wallet a e) same)
          (λ _ _ impossible. absurd impossible))
    where
      no_wallet :
          (a : Text)
          → (elim (env "DEPLOYER_KEY") as (λ _. Option Text) [
            | none ↦ none
            | some key ↦ N.wallet_address key
          ])
            ≡ some a
          → ⊥
      no_wallet a e = ground (arith, h, e)

  -- Without a deployer's key the script stops with an error before it has submitted anything.
  pub verify_on_blockscout-without_key :
      (x : Explorer) (env : Env) (w : World N)
      → env "DEPLOYER_KEY" ≡ none
      → (e : Stop) × (verify_on_blockscout N x env w ≡ (err e, w))
  unfolding verify_on_blockscout
  verify_on_blockscout-without_key x env w h =
      stopped w (verify_all N (verify_contract_code N x) env w)
        (without_key-Triple (verify_contract_code N x) env w h).holds
