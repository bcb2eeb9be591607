-- ===== src/Upgrades/Deploy/Filling.antt =====
-- `deployLogic` from its checks to the queue that it leaves.
use arb_bridge_peripherals.Base.{
  ◌≡◌, refl, ap, sym, subst, ◌∙◌, ◌⊎◌, inl, inr, false, Option, none, some, List, [], ◌∷◌, Text,
  any, Result, pure, throw, ◌>>◌, Triple, Post, Post-ask, Post-pure, Post-throw, Post-gets,
  Post-bind, Post-then, Post-throw_if, Post-weaken, codes,
}
use arb_bridge_peripherals.Upgrades.Names.{ContractName}
use arb_bridge_peripherals.Upgrades.Node.{Hre, World, Run, QueuedUpdates}
use arb_bridge_peripherals.Upgrades.Files.{get_queued_updates, write_queued}
use arb_bridge_peripherals.Upgrades.Files.Disk.{Post-on_disk}
use arb_bridge_peripherals.Upgrades.Signer.{
  includes, await_compile, ensure_clean_git_tree, first_signer,
}
use arb_bridge_peripherals.Upgrades.Deploy.{deploy_logic}
use arb_bridge_peripherals.Upgrades.Deploy.Queue.{InFile, Extended, Filled, deploy_each-Triple}

module _ (H : Hre) where
  -- The queue at the start: a network without a file has an empty one.
  abbrev queue_in : Option QueuedUpdates → QueuedUpdates
  queue_in none = []
  queue_in (some q) = q

  abbrev pub queue_of : World H → QueuedUpdates
  queue_of w = queue_in w.queued_updates

  -- The file of the queue is as it was.
  abbrev pub SameQueue : World H → World H → Type 0
  SameQueue w t = t.queued_updates ≡ w.queued_updates

  get_queued_updates-Triple :
      (w : World H)
      → Triple (λ q t. (q ≡ queue_of w) × InFile H q t) (SameQueue w) (get_queued_updates H) w
  unfolding get_queued_updates write_queued
  get_queued_updates-Triple w =
      Post-bind {P = λ file t. (file ≡ w.queued_updates) × (t ≡ w)} _ _ w
        (Post-gets _ w (refl, refl)) (λ file t h. at file t h)
    where
      at :
          (file : Option QueuedUpdates) (t : World H)
          → (file ≡ w.queued_updates) × (t ≡ w)
          → Triple
              (λ q t. (q ≡ queue_of w) × InFile H q t)
              (SameQueue w)
              (elim file as (λ _. Run H QueuedUpdates) [
                | none ↦ write_queued H [] >> pure []
                | some q ↦ pure q
              ])
              t
      at none t h =
          Post-then {P = λ _ x. InFile H [] x} _ _ t
            (Post-on_disk H _ t (λ disk. refl) (λ disk. ap (λ (x : World H). x.queued_updates) h.1))
            (λ _ x i. Post-pure [] x (ap queue_in h.0, i))
      at (some q) t h =
          Post-pure q t (ap queue_in h.0, ap (λ (x : World H). x.queued_updates) h.1 ∙ sym h.0)

  first_signer-Triple : (w : World H) → Triple (λ _ t. t ≡ w) (λ t. t ≡ w) (first_signer H) w
  unfolding first_signer
  first_signer-Triple w = at H.signers
    where
      at :
          (ss : List Text)
          → Triple
              (λ _ t. t ≡ w)
              (λ t. t ≡ w)
              (elim ss as (λ _. Run H Text) [
                | [] ↦ throw "No signer - make sure a key is properly set (check hardhat config)"
                | s ∷ _ ↦ pure s
              ])
              w
      at [] = Post-throw _ w refl
      at (s ∷ ss) = Post-pure s w refl

  abbrev pub Fills : List ContractName → World H → Result (Unit {0}) × World H → Type 0
  Fills names w =
      Post
        (λ _ t.
          Filled H names (queue_of w) t × (any (includes (codes "contracts")) H.git_diff ≡ false))
        (λ t. SameQueue w t ⊎ Extended H names (queue_of w) t)

  -- A deployment of new logic contracts that ends well has found no local change to the contracts, and
  -- the queue that it leaves in the file has an entry for every contract of its list, and for each
  -- contract at all the entry of before or, if it is in the list, an entry with the address and the
  -- transaction of a deployment of that contract, and with the current commit. One that stops, also by a write that the disk refuses, leaves the queue's
  -- file as it was, or in it a queue of which the same holds but that not every contract of the list need
  -- be in it.
  pub deploy_logic-Filled :
      (names : List ContractName) (w : World H) → Fills names w (deploy_logic H names w)
  unfolding deploy_logic await_compile ensure_clean_git_tree
  deploy_logic-Filled names w =
      (Post-then {P = λ _ t. t ≡ w} _ _ w (Post-ask _ w (λ _ e. refl) (inl refl)) (λ _ t same.
        Post-then {P = λ _ x. (x ≡ w) × clean} _ _ t
          (Post-throw_if _ _ t (λ c. (same, c)) (inl (ap (λ (x : World H). x.queued_updates) same)))
          (λ _ x (same', c).
            Post-bind _ _ x
              (Post-weaken {P = λ _ y. y ≡ x} {Q = λ _ y. y ≡ w} _ x (λ _ y e. e ∙ same')
                (λ y e. inl (ap (λ (x : World H). x.queued_updates) (e ∙ same')))
                (first_signer-Triple x))
              (λ signer y same''.
                Post-bind _ _ y
                  (Post-weaken {Q = λ q z. (q ≡ queue_of w) × InFile H q z} _ y
                    (λ q z (e, i). (e ∙ ap queue_of same'', i))
                    (λ z e. inl (e ∙ ap (λ (x : World H). x.queued_updates) same''))
                    (get_queued_updates-Triple y))
                  (λ q z (e, i).
                    Post-weaken _ z (λ _ v f. (subst (λ k. Filled H names k v) e f, c))
                      (λ v f. inr (subst (λ k. Extended H names k v) e f))
                      (deploy_each-Triple H signer names q z i)))))).holds
    where
      clean : Type 0
      clean = any (includes (codes "contracts")) H.git_diff ≡ false
