-- ===== src/Chain/OnParent.antt =====
-- Runs that deploy and send on the parent chain alone.
use arb_bridge_peripherals.Base.{◌≡◌, List, [], ◌∷◌, Text, IsPreorder, Moves, All, Script, ℕ}
use arb_bridge_peripherals.Chain.Types.{
  parent, Contract, Tx, Event, deployed, sent, wrote, submitted, registered, saved,
}
use arb_bridge_peripherals.Chain.{Network, World, deploy, send, random_address, wait_for_status}
use arb_bridge_peripherals.Chain.Logs.{random_address-SameLog, wait_for_status-SameLog}
use arb_bridge_peripherals.Chain.Growth.{Grows, Grows-preorder, unchanged-Grows}
use arb_bridge_peripherals.Chain.Scope.{IsLocal, StaysLocal, deploy-StaysLocal, send-StaysLocal}

abbrev pub IsOnParent : Event → Type 0
IsOnParent (deployed l c a) = l ≡ parent
IsOnParent (sent l from tx) = l ≡ parent
IsOnParent (wrote txs) = ⊥
IsOnParent (submitted name a args) = Unit
IsOnParent (registered l1 l2) = ⊥
IsOnParent (saved f) = ⊥

local-IsOnParent :
    (account : Text) (es : List Event) → All (IsLocal parent account) es → All IsOnParent es
local-IsOnParent account [] h = tt
local-IsOnParent account (e ∷ es) (h, hs) = (one e h, local-IsOnParent account es hs)
  where
    one : (x : Event) → IsLocal parent account x → IsOnParent x
    one (deployed l c a) k = k
    one (sent l from tx) k = k.0
    one (wrote txs) k = k
    one (submitted name a args) k = tt
    one (registered l1 l2) k = k
    one (saved f) k = k

module _ (N : Network) where
  -- The log grows, by such events alone.
  abbrev pub OnParent : World N → World N → Type 0
  OnParent = Grows N IsOnParent

  pub OnParent-preorder : IsPreorder OnParent
  OnParent-preorder = Grows-preorder N IsOnParent

  pub StaysLocal-OnParent :
      {A : Type 0} (account : Text) (m : Script (World N) A)
      → ((w : World N) → StaysLocal N parent account w (m w).1)
      → Moves OnParent m
  StaysLocal-OnParent account m h = record {
    moves = λ w. record {
      events = (h w).events;
      grown = (h w).grown;
      all_events = local-IsOnParent account (h w).events (h w).all_events;
    };
  }

  pub random_address-OnParent : Moves OnParent (random_address N)
  random_address-OnParent = record {
    moves = λ w. unchanged-Grows N IsOnParent w _ ((random_address-SameLog N).moves w);
  }

  pub wait_for_status-OnParent : (h : Text) (i : ℕ) → Moves OnParent (wait_for_status N h i)
  wait_for_status-OnParent h i = record {
    moves = λ w. unchanged-Grows N IsOnParent w _ ((wait_for_status-SameLog N h i).moves w);
  }

  pub deploy-OnParent : (from : Text) (c : Contract) → Moves OnParent (deploy N parent from c)
  deploy-OnParent from c =
      StaysLocal-OnParent from (deploy N parent from c)
        (λ w. (deploy-StaysLocal N parent from c).moves w)

  pub send-OnParent : (from : Text) (tx : Tx) → Moves OnParent (send N parent from tx)
  send-OnParent from tx =
      StaysLocal-OnParent from (send N parent from tx)
        (λ w. (send-StaysLocal N parent from tx).moves w)
