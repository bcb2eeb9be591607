-- ===== src/LocalDeployment/Saved.antt =====
-- What a whole local deployment leaves in the log: `main` of deployCreatorAndCreateTokenBridge.ts.
use arb_bridge_peripherals.Base.{
  Bool, true, false, Result, ok, err, failed, Post, ◌≡◌, refl, sym, ap, subst, ◌∙◌, ℕ, some, none,
  List, [], ◌∷◌, ◌++◌, Text, ask, Option, Triple, Post-ask, Post-bind, Post-then, Post-pure,
  Post-weaken, Moves, Moves-Triple, All, All-append, append_assoc,
}
use arb_bridge_peripherals.Chain.{Network, World, Run, add_custom_network, save_networks}
use arb_bridge_peripherals.Chain.Types.{
  parent, child, Event, deployed, sent, wrote, submitted, registered, saved, local_networks,
}
use arb_bridge_peripherals.Chain.NetworkTypes.{L1Network, L2Network, TokenBridge}
use arb_bridge_peripherals.Chain.Growth.{Grows, unchanged-Grows}
use arb_bridge_peripherals.Chain.OnParent.{IsOnParent, OnParent}
use arb_bridge_peripherals.Usdc.Env.{Env}
use arb_bridge_peripherals.LocalDeployment.{
  Containers, LocalSetup, eth_local, get_local_networks, setup_token_bridge_in_local_env,
  save_local_setup,
}
use arb_bridge_peripherals.LocalDeployment.Links.{Linked, get_local_networks-Linked}
use arb_bridge_peripherals.LocalDeployment.Effects.{
  estimate-OnParent, creator-OnParent, create_token_bridge-OnParent, register_weth-OnParent,
  parent_weth-OnParent,
}

abbrev pub IsUnsaved : Event → Type 0
IsUnsaved (saved f) = ⊥
IsUnsaved _ = Unit

on_parent-IsUnsaved : (es : List Event) → All IsOnParent es → All IsUnsaved es
on_parent-IsUnsaved [] h = tt
on_parent-IsUnsaved (e ∷ es) (h, hs) = (one e h, on_parent-IsUnsaved es hs)
  where
    one : (x : Event) → IsOnParent x → IsUnsaved x
    one (deployed l c a) k = tt
    one (sent l from tx) k = tt
    one (wrote txs) k = tt
    one (submitted name a args) k = tt
    one (registered l1 l2) k = tt
    one (saved f) k = k

pair_cong : {a b c d : L2Network} → a ≡ b → c ≡ d → ◌≡◌ {A = L2Network × L2Network} (a, c) (b, d)
pair_cong h k = cc

module _ (N : Network) (containers : Containers) (child_id : ℕ) (w : World N) where
  -- The run has written no network file.
  abbrev pub Unsaved : World N → Type 0
  Unsaved = Grows N IsUnsaved w

  -- The networks are registered, and all that followed was done on the parent chain.
  pub record Prepared (l1 l2 : L2Network) (t : World N) : Type 0 where
    pub linked : Linked child_id l1 l2
    pub events : List Event
    pub grown : t.log ≡ w.log ++ (registered (some (eth_local l1)) l1 ∷ registered none l2 ∷ events)
    pub all_on_parent : All IsOnParent events

  Prepared-Unsaved : (l1 l2 : L2Network) (t : World N) → Prepared l1 l2 t → Unsaved t
  Prepared-Unsaved l1 l2 t p = record {
    events = registered (some (eth_local l1)) l1 ∷ registered none l2 ∷ p.events;
    grown = p.grown;
    all_events = (tt, (tt, on_parent-IsUnsaved p.events p.all_on_parent));
  }

  Prepared-OnParent :
      (l1 l2 : L2Network) (t u : World N) → Prepared l1 l2 t → OnParent N t u → Prepared l1 l2 u
  Prepared-OnParent l1 l2 t u p o = record {
    linked = p.linked;
    events = p.events ++ o.events;
    grown =
        o.grown
        ∙ ap (λ x. x ++ o.events) p.grown
        ∙ append_assoc w.log (registered (some (eth_local l1)) l1 ∷ registered none l2 ∷ p.events)
            o.events;
    all_on_parent = All-append IsOnParent p.events o.events p.all_on_parent o.all_events;
  }

  prepared :
      {A : Type 0} (l1 l2 : L2Network) (m : Run N A) (t : World N)
      → Moves (OnParent N) m
      → Prepared l1 l2 t
      → Triple (λ _ u. Prepared l1 l2 u) Unsaved m t
  prepared l1 l2 m t h p =
      Post-weaken m t (λ a u o. Prepared-OnParent l1 l2 t u p o)
        (λ u o. Prepared-Unsaved l1 l2 u (Prepared-OnParent l1 l2 t u p o))
        (Moves-Triple (OnParent N) m t h)

  -- What the setup returns is what it has registered, but for the token bridge.
  abbrev pub IsSetup : L2Network → L2Network → LocalSetup → Type 0
  IsSetup l1 l2 s =
      (s.l1_network ≡ l1) × (b : TokenBridge) × (s.l2_network ≡ record l2 { token_bridge = b })

  pub record Saved (t : World N) : Type 0 where
    pub l1 : L2Network
    pub l2 : L2Network
    pub token_bridge : TokenBridge
    pub creator : Text
    pub sender : Text
    pub linked : Linked child_id l1 l2
    pub events : List Event
    pub all_on_parent : All IsOnParent events
    pub grown :
        t.log
        ≡ w.log
          ++ (registered (some (eth_local l1)) l1 ∷ registered none l2 ∷ events
              ++ (saved
                    (local_networks l1 (record l2 { token_bridge = token_bridge }) creator sender)
                  ∷ []))

  nothing_saved : (t : World N) → t ≡ w → Unsaved t
  nothing_saved t same = unchanged-Grows N IsUnsaved w t (ap (λ (x : World N). x.log) same)

  -- The keys are read before anything is done.
  key_read :
      (f : World N → Option Text) (t : World N) → t ≡ w → Triple (λ _ u. u ≡ w) Unsaved (ask f) t
  key_read f t same = Post-ask f t (λ _ _. same) (nothing_saved t same)

  networks_read :
      (rollup : Text) (t : World N)
      → N.chain_id parent w.chain ≡ some 412346
      → N.chain_id child w.chain ≡ some child_id
      → t ≡ w
      → Triple
          (λ ls u. Linked child_id ls.0 ls.1 × (u ≡ w))
          Unsaved
          (get_local_networks N containers rollup)
          t
  networks_read rollup t p c same =
      subst
        (λ x.
          Triple (λ ls u. Linked child_id ls.0 ls.1 × (u ≡ w)) Unsaved
            (get_local_networks N containers rollup) x)
        (sym same)
        (Post-weaken (get_local_networks N containers rollup) w (λ ls u h. h)
          (λ u same'. nothing_saved u same')
          (get_local_networks-Linked N containers rollup w child_id p c))

  -- A registration with the SDK, which may refuse it.
  registration-Triple :
      {Q : Unit {0} → World N → Type 0} {E : World N → Type 0} (l1 : Option L1Network)
      (l2 : L2Network) (t : World N)
      → Q tt (record t { log = t.log ++ (registered l1 l2 ∷ []) })
      → E t
      → Triple Q E (add_custom_network N l1 l2) t
  unfolding add_custom_network
  registration-Triple {Q} {E} l1 l2 t h k = record { holds = at (N.accepts_network l1 l2 t.chain) }
    where
      at :
          (b : Bool)
          → Post Q E (elim b as (λ _. Result (Unit {0}) × World N) [
            | false ↦ (err failed, t)
            | true ↦ (ok tt, record t { log = t.log ++ (registered l1 l2 ∷ []) })
          ])
      at false = k
      at true = h

  first_registered :
      (l1 : L2Network) (t : World N)
      → t ≡ w
      → Triple
          (λ _ u. u.log ≡ w.log ++ (registered (some (eth_local l1)) l1 ∷ []))
          Unsaved
          (add_custom_network N (some (eth_local l1)) l1)
          t
  first_registered l1 t same =
      registration-Triple _ l1 t
        (ap (λ (x : World N). x.log ++ (registered (some (eth_local l1)) l1 ∷ [])) same)
        (nothing_saved t same)

  both_registered :
      (l1 l2 : L2Network) (t : World N)
      → Linked child_id l1 l2
      → t.log ≡ w.log ++ (registered (some (eth_local l1)) l1 ∷ [])
      → Triple (λ _ u. Prepared l1 l2 u) Unsaved (add_custom_network N none l2) t
  both_registered l1 l2 t linked h =
      registration-Triple none l2 t
        (record {
          linked = linked;
          events = [];
          grown =
              ap (λ x. x ++ (registered none l2 ∷ [])) h
              ∙ append_assoc w.log (registered (some (eth_local l1)) l1 ∷ [])
                  (registered none l2 ∷ []);
          all_on_parent = tt;
        })
        (record {
          events = registered (some (eth_local l1)) l1 ∷ [];
          grown = h;
          all_events = (tt, tt);
        })

  network_file-Saved :
      (l1 l2 : L2Network) (s : LocalSetup) (t : World N)
      → IsSetup l1 l2 s
      → Prepared l1 l2 t
      → Triple
          (λ _ u. Saved u)
          Unsaved
          (save_networks N
            (local_networks s.l1_network s.l2_network s.l1_token_bridge_creator s.retryable_sender))
          t
  unfolding save_networks
  network_file-Saved l1 l2 s t (same, b, same') p = record {
    holds = record {
      l1 = l1;
      l2 = l2;
      token_bridge = b;
      creator = s.l1_token_bridge_creator;
      sender = s.retryable_sender;
      linked = p.linked;
      events = p.events;
      all_on_parent = p.all_on_parent;
      grown =
          ap
            (λ x.
              x
              ++ (saved (
                    local_networks s.l1_network s.l2_network s.l1_token_bridge_creator
                      s.retryable_sender)
                  ∷ []))
            p.grown
          ∙ append_assoc w.log (registered (some (eth_local l1)) l1 ∷ registered none l2 ∷ p.events)
              _
          ∙ ap
              (λ (x : L2Network × L2Network).
                w.log
                ++ (registered (some (eth_local l1)) l1 ∷ registered none l2 ∷ p.events
                    ++ (saved (local_networks x.0 x.1 s.l1_token_bridge_creator s.retryable_sender)
                        ∷ [])))
              (pair_cong same same');
    };
  }

  setup_token_bridge_in_local_env-Prepared :
      (env : Env)
      → N.chain_id parent w.chain ≡ some 412346
      → N.chain_id child w.chain ≡ some child_id
      → Triple
          (λ s t. (l1 : L2Network) × (l2 : L2Network) × IsSetup l1 l2 s × Prepared l1 l2 t)
          Unsaved
          (setup_token_bridge_in_local_env N containers env)
          w
  unfolding setup_token_bridge_in_local_env
  setup_token_bridge_in_local_env-Prepared env p c =
      Post-bind _ _ w (key_read _ w refl) λ owner t₁ k₁.
        Post-bind _ _ t₁ (key_read _ t₁ k₁) λ deployer t₂ k₂.
          Post-bind _ _ t₂ (key_read _ t₂ k₂) λ _ t₃ k₃.
            Post-bind _ _ t₃ (networks_read _ t₃ p c k₃) λ (l1, l2) t₄ (linked, k₄).
              Post-then _ _ t₄ (first_registered l1 t₄ k₄) λ _ t₅ k₅.
                Post-then _ _ t₅ (both_registered l1 l2 t₅ linked k₅) λ _ t₆ k₆.
                  Post-bind _ _ t₆
                    (prepared l1 l2 _ t₆ (parent_weth-OnParent N containers env deployer) k₆)
                    λ weth t₇ k₇.
                      Post-bind _ _ t₇
                        (prepared l1 l2 _ t₇ (estimate-OnParent N containers deployer) k₇)
                        λ params t₈ k₈.
                          Post-bind _ _ t₈
                            (prepared l1 l2 _ t₈ (creator-OnParent N containers deployer weth _) k₈)
                            λ creator t₉ k₉.
                              Post-bind _ _ t₉
                                (prepared l1 l2 _ t₉
                                  (create_token_bridge-OnParent N containers deployer creator.0 _
                                    owner)
                                  k₉)
                                λ d u₁ h₁.
                                  Post-then _ _ u₁
                                    (prepared l1 l2 _ u₁
                                      (register_weth-OnParent N containers owner _ weth d) h₁)
                                    λ _ u₂ h₂. Post-pure _ u₂ (l1, l2, (refl, _, refl), h₂)

  -- Where the parent chain has the number 412346 and the child chain's number can be read: if the script ends well, the last thing that it has
  -- done is to write the network file. Before that it has registered both networks with the SDK, first
  -- of all, and then has deployed and sent on the parent chain alone. The networks in the file are those
  -- registered, but for the child chain's token bridge, and they refer to each other. If the script
  -- stops with an error, it has written no network file.
  pub save_local_setup-Saved :
      (env : Env)
      → N.chain_id parent w.chain ≡ some 412346
      → N.chain_id child w.chain ≡ some child_id
      → Triple (λ _ t. Saved t) Unsaved (save_local_setup N containers env) w
  unfolding save_local_setup
  save_local_setup-Saved env p c =
      Post-bind _ _ w (setup_token_bridge_in_local_env-Prepared env p c)
        λ s t (l1, l2, is_setup, k). network_file-Saved l1 l2 s t is_setup k
