-- ===== src/Chain/Logs.antt =====
-- What the steps on the chains leave in a run's log.
use arb_bridge_peripherals.Base.{
  ℕ, ◌≡◌, refl, ◌∙◌, [], ◌∷◌, ◌++◌, Text, ok, arith, IsPreorder, Moves,
}
use arb_bridge_peripherals.Chain.Types.{Layer, Contract, Tx, deployed, sent}
use arb_bridge_peripherals.Chain.{Network, World, deploy, send, random_address, wait_for_status}

module _ (N : Network) where
  abbrev pub SameLog : World N → World N → Type 0
  SameLog w t = t.log ≡ w.log

  pub SameLog-preorder : IsPreorder SameLog
  SameLog-preorder = record { reflexive = λ s. refl; transitive = λ s t u p q. q ∙ p }

  pub random_address-SameLog : Moves SameLog (random_address N)
  unfolding random_address
  random_address-SameLog = record { moves = λ s. refl }

  pub wait_for_status-SameLog : (h : Text) (i : ℕ) → Moves SameLog (wait_for_status N h i)
  unfolding wait_for_status
  wait_for_status-SameLog h i = record { moves = λ s. ground arith }

  pub send-log :
      (l : Layer) (from : Text) (tx : Tx) (w : World N) {h : Text} {t : World N}
      → send N l from tx w ≡ (ok h, t)
      → t.log ≡ w.log ++ (sent l from tx ∷ [])
  unfolding send
  send-log l from tx w e = ground arith

  pub deploy-log :
      (l : Layer) (from : Text) (c : Contract) (w : World N) {a : Text} {t : World N}
      → deploy N l from c w ≡ (ok a, t)
      → t.log ≡ w.log ++ (deployed l c a ∷ [])
  unfolding deploy
  deploy-log l from c w e = ground arith
