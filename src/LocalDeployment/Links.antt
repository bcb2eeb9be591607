-- ===== src/LocalDeployment/Links.antt =====
-- How the descriptions of the local networks refer to each other.
use arb_bridge_peripherals.Base.{
  ◌≡◌, refl, sym, ap, subst, ℕ, some, [], ◌∷◌, Text, ask, Option, Triple, Post-ask, Post-bind,
  Post-pure,
}
use arb_bridge_peripherals.Chain.{Network, World}
use arb_bridge_peripherals.Chain.Types.{parent, child, Getter}
use arb_bridge_peripherals.Chain.NetworkTypes.{L2Network}
use arb_bridge_peripherals.LocalDeployment.{
  Containers, RollupData, arb_local, orbit_local, eth_local, rollup_data, get_local_networks,
}

-- Each network names the next as its partner, and is named by it, down to the child chain.
pub record Linked (child_id : ℕ) (l1 l2 : L2Network) : Type 0 where
  pub is_child : l2.chain_id ≡ child_id
  pub partner : l1.partner_chain_ids ≡ some (l2.chain_id ∷ [])
  pub parent_of : l2.partner_chain_id ≡ l1.chain_id
  pub settles_on : (eth_local l1).chain_id ≡ l1.partner_chain_id
  pub named_back : (eth_local l1).partner_chain_ids ≡ l1.chain_id ∷ []

module _ (N : Network) (containers : Containers) where
  described :
      (id1 id2 : ℕ) (data1 data2 : RollupData) (outbox : Text)
      → id1 ≡ 412346
      → Linked id2 (arb_local id2 data1) (orbit_local id1 id2 data2 outbox)
  unfolding arb_local orbit_local eth_local
  described id1 id2 data1 data2 outbox e = record {
    is_child = refl;
    partner = refl;
    parent_of = e;
    settles_on = refl;
    named_back = refl;
  }

  -- A read in a state that is still the first one.
  asked :
      {A : Type 0} (f : World N → Option A) (w t : World N) (a : A)
      → f w ≡ some a
      → t ≡ w
      → Triple (λ b u. (b ≡ a) × (u ≡ w)) (λ u. u ≡ w) (ask f) t
  asked f w t a e same = Post-ask f t (λ b h. (cc (sym e, sym (ap f same), h), same)) same

  any_read :
      {A : Type 0} (f : World N → Option A) (w t : World N)
      → t ≡ w
      → Triple (λ _ u. u ≡ w) (λ u. u ≡ w) (ask f) t
  any_read f w t same = Post-ask f t (λ _ _. same) same

  rollup_data-reads :
      (rollup_address : Text) (w t : World N)
      → t ≡ w
      → Triple (λ _ u. u ≡ w) (λ u. u ≡ w) (rollup_data N containers rollup_address) t
  unfolding rollup_data
  rollup_data-reads [] w t same = any_read (λ _. containers.l3node) w t same
  rollup_data-reads (c ∷ cs) w t same =
      Post-bind _ _ t (any_read (λ x. N.read parent (c ∷ cs) Getter.bridge x.chain) w t same)
        (λ _ t₁ same₁.
          Post-bind _ _ t₁ (any_read (λ x. N.read parent (c ∷ cs) Getter.inbox x.chain) w t₁ same₁)
            (λ _ t₂ same₂.
              Post-bind _ _ t₂
                (any_read (λ x. N.read parent (c ∷ cs) Getter.sequencer_inbox x.chain) w t₂ same₂)
                (λ _ t₃ same₃. Post-pure _ t₃ same₃)))

  -- On a parent chain with the number 412346 and a child chain whose number can be read, the networks are
  -- read and nothing is changed; if the reads end well, the descriptions refer to each other.
  pub get_local_networks-Linked :
      (rollup_address : Text) (w : World N) (child_id : ℕ)
      → N.chain_id parent w.chain ≡ some 412346
      → N.chain_id child w.chain ≡ some child_id
      → Triple
          (λ ls t. Linked child_id ls.0 ls.1 × (t ≡ w))
          (λ t. t ≡ w)
          (get_local_networks N containers rollup_address)
          w
  unfolding get_local_networks
  get_local_networks-Linked rollup_address w child_id p c =
      Post-bind _ _ w (asked (λ x. N.chain_id parent x.chain) w w 412346 p refl) (λ id1 t₁ h₁.
        Post-bind _ _ t₁ (asked (λ x. N.chain_id child x.chain) w t₁ child_id c h₁.1) (λ id2 t₂ h₂.
          Post-bind _ _ t₂ (any_read (λ _. containers.sequencer) w t₂ h₂.1) (λ data1 t₃ same₃.
            Post-bind _ _ t₃ (rollup_data-reads rollup_address w t₃ same₃) (λ data2 t₄ same₄.
              Post-bind _ _ t₄
                (any_read (λ x. N.read parent data2.bridge Getter.first_allowed_outbox x.chain) w t₄
                  same₄)
                (λ outbox t₅ same₅. Post-pure _ t₅ (
                  subst (λ n. Linked n (arb_local id2 data1) (orbit_local id1 id2 data2 outbox))
                      h₂.0 (described id1 id2 data1 data2 outbox h₁.0),
                  same₅,
                ))))))
