-- ===== src/Upgrades/Update/Rounds.antt =====
-- One round of the update loop: its transaction, and its writes of the two files.
use arb_bridge_peripherals.Base.{
  ◌≡◌, refl, sym, ap, ◌∙◌, ◌⊎◌, inl, inr, Option, none, some, Text, Result, ok, err, failed, Triple,
  Post, Post-ask, Post-pure, Post-bind, Post-then, Post-weaken, subst, pure,
}
use arb_bridge_peripherals.Upgrades.Names.{ContractName}
use arb_bridge_peripherals.Upgrades.Node.{
  Hre, World, Run, send, Call, QueuedUpdate, CurrentDeployment,
}
use arb_bridge_peripherals.Upgrades.Files.{write_tmp, write_queued}
use arb_bridge_peripherals.Upgrades.Files.Disk.{Post-on_disk}
use arb_bridge_peripherals.Upgrades.Verify.{deployment_of}
use arb_bridge_peripherals.Upgrades.Update.{Progress, new_deployment, upgrade_one, update_one}
use arb_bridge_peripherals.Upgrades.Update.Progress.{queue_entry, after_update, Saved}
use arb_bridge_peripherals.Upgrades.Update.Calls.{Sets, upgrade_tx-Sets}

module _ (H : Hre) (signer : Text) where
  -- The transaction of a round, from one state of the chain to the next.
  pub record Upgrade (p : Progress) (s t : H.State) (n : ContractName) (d : CurrentDeployment)
      (q : QueuedUpdate) : Type 0 where
    pub entry : deployment_of p.0 n ≡ some d
    pub queued : queue_entry p n ≡ some q
    pub call : Call
    pub sets : Sets n d q call
    pub sent : H.send signer call s ≡ some t

  -- A round that ends well: the contract has no entry and nothing is done, or it is upgraded and both files
  -- are written.
  abbrev pub Turned : Progress → ContractName → H.State → Progress → World H → Type 0
  Turned p n s p' t =
      Saved H p' t
      × (((p' ≡ p) × (deployment_of p.0 n ≡ none) × (t.chain ≡ s))
          ⊎ ((d : CurrentDeployment) × (q : QueuedUpdate) × Upgrade p s t.chain n d q
              × (p' ≡ after_update n d q p)))

  -- Where a run stops: between two rounds, or after a transaction that the queue's file does not know of
  -- yet, the temporary file with or without the new entry.
  abbrev pub Stopped : Progress → H.State → World H → Type 0
  Stopped p s t =
      (Saved H p t × (t.chain ≡ s))
      ⊎ ((n : ContractName) × (d : CurrentDeployment) × (q : QueuedUpdate) × Upgrade p s t.chain n d
            q
          × (t.queued_updates ≡ some p.1)
          × ((t.tmp_deployment ≡ some p.0) ⊎ (t.tmp_deployment ≡ some (after_update n d q p).0)))

  send-Triple :
      (c : Call) (p : Progress) (w : World H)
      → Saved H p w
      → Triple
          (λ _ t. Saved H p t × (H.send signer c w.chain ≡ some t.chain))
          (λ t. Saved H p t × (t.chain ≡ w.chain))
          (send H signer c)
          w
  unfolding send
  send-Triple c p w saved = record { holds = at (H.send signer c w.chain) refl }
    where
      at :
          (o : Option H.State)
          → H.send signer c w.chain ≡ o
          → Post
              (λ _ t. Saved H p t × (H.send signer c w.chain ≡ some t.chain))
              (λ t. Saved H p t × (t.chain ≡ w.chain))
              (elim o as (λ _. Result (Unit {0}) × World H) [
                | none ↦ (err failed, w)
                | some s ↦ (ok tt, record w { chain = s })
              ])
      at none e = (saved, refl)
      at (some s) e = (record { tmp = saved.tmp; queue = saved.queue }, e)

  upgrade_one-Turned :
      (n : ContractName) (d : CurrentDeployment) (p : Progress) (w : World H)
      → deployment_of p.0 n ≡ some d
      → Saved H p w
      → Triple (Turned p n w.chain) (Stopped p w.chain) (upgrade_one H signer n d p) w
  unfolding upgrade_one write_tmp write_queued new_deployment
  upgrade_one-Turned n d p w e saved =
      Post-bind {P = λ q t. (queue_entry p n ≡ some q) × Saved H p t × (t.chain ≡ w.chain)} _ _ w
        (Post-ask _ w (λ q f. (f, saved, refl)) (inl (saved, refl)))
        λ q t₁ (f, saved₁, c₁).
          Post-bind {P = λ c t. Sets n d q c × Saved H p t × (t.chain ≡ w.chain)} _ _ t₁
            (Post-ask _ t₁ (λ c g. (upgrade_tx-Sets n d q p.0 g, saved₁, c₁)) (inl (saved₁, c₁)))
            λ c t₂ (sets, saved₂, c₂).
              let made : (t : H.State)
                  → H.send signer c t₂.chain ≡ some t
                  → Upgrade p w.chain t n d q =
                λ t g. record {
                  entry = e;
                  queued = f;
                  call = c;
                  sets = sets;
                  sent = subst (λ s. H.send signer c s ≡ some t) c₂ g;
                } in
              Post-then _ _ t₂
                (Post-weaken (send H signer c) t₂ (λ _ t k. k) (λ t (k, c₃). inl (k, c₃ ∙ c₂))
                  (send-Triple c p t₂ saved₂))
                λ _ t₃ (saved₃, g).
                  Post-then
                    {P = λ _ t.
                      (t.tmp_deployment ≡ some (after_update n d q p).0)
                      × (t.queued_updates ≡ some p.1)
                      × (t.chain ≡ t₃.chain)}
                    _ _ t₃
                    (Post-on_disk H _ t₃ (λ disk. (refl, saved₃.queue, refl))
                      (λ disk. inr (n, d, q, made t₃.chain g, saved₃.queue, inl saved₃.tmp)))
                    λ _ t₄ (tmp₄, queue₄, c₄).
                      let made₄ = made t₄.chain (g ∙ ap some (sym c₄)) in
                      Post-then {P = λ _ t. Saved H (after_update n d q p) t × (t.chain ≡ t₄.chain)}
                        _ _ t₄
                        (Post-on_disk H _ t₄ (λ disk. (record { tmp = tmp₄; queue = refl }, refl))
                          (λ disk. inr (n, d, q, made₄, queue₄, inr tmp₄)))
                        λ _ t₅ (saved₅, c₅).
                          Post-pure _ t₅
                            (saved₅, inr (d, q, made t₅.chain (g ∙ ap some (sym (c₅ ∙ c₄))), refl))

  pub update_one-Turned :
      (n : ContractName) (p : Progress) (w : World H)
      → Saved H p w
      → Triple (Turned p n w.chain) (Stopped p w.chain) (update_one H signer n p) w
  unfolding update_one
  update_one-Turned n p w saved = at (deployment_of p.0 n) refl
    where
      at :
          (o : Option CurrentDeployment)
          → deployment_of p.0 n ≡ o
          → Triple
              (Turned p n w.chain)
              (Stopped p w.chain)
              (elim o as (λ _. Run H Progress) [
                | none ↦ pure p
                | some d ↦ upgrade_one H signer n d p
              ])
              w
      at none e = Post-pure p w (saved, inl (refl, e, refl))
      at (some d) e = upgrade_one-Turned n d p w e saved
