-- ===== src/Chain/Scope.antt =====
-- Which chain a script touches, and for whom.
use arb_bridge_peripherals.Base.{◌≡◌, refl, List, Text, String, IsPreorder, Moves}
use arb_bridge_peripherals.Chain.Types.{
  Layer, Contract, Tx, Event, deployed, sent, wrote, submitted, registered, saved,
}
use arb_bridge_peripherals.Chain.Growth.{
  Grows, Grows-preorder, deploy-Grows, send-Grows, submit-Grows,
}
use arb_bridge_peripherals.Chain.{Network, World, deploy, send, submit}

-- An event of a script that works on one chain only, and sends its transactions from one account.
abbrev pub IsLocal : Layer → Text → Event → Type 0
IsLocal l account (deployed l' c a) = l' ≡ l
IsLocal l account (sent l' from tx) = (l' ≡ l) × (from ≡ account)
IsLocal l account (wrote txs) = ⊥
IsLocal l account (submitted name a args) = Unit
IsLocal l account (registered l1 l2) = ⊥
IsLocal l account (saved f) = ⊥

module _ (N : Network) (l : Layer) (account : Text) where
  -- The log grows, by such events alone.
  abbrev pub StaysLocal : World N → World N → Type 0
  StaysLocal = Grows N (IsLocal l account)

  pub StaysLocal-preorder : IsPreorder StaysLocal
  StaysLocal-preorder = Grows-preorder N (IsLocal l account)

  pub deploy-StaysLocal : (c : Contract) → Moves StaysLocal (deploy N l account c)
  deploy-StaysLocal c = deploy-Grows N (IsLocal l account) l account c (λ a. refl)

  pub send-StaysLocal : (tx : Tx) → Moves StaysLocal (send N l account tx)
  send-StaysLocal tx = send-Grows N (IsLocal l account) l account tx (refl, refl)

  pub submit-StaysLocal :
      (name : String) (a : Text) (args : List Text) → Moves StaysLocal (submit N name a args)
  submit-StaysLocal name a args = submit-Grows N (IsLocal l account) name a args tt
