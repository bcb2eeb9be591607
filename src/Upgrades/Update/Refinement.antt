-- ===== src/Upgrades/Update/Refinement.antt =====
-- The update loop as steps on a board: for each contract, its entry and its queued update. The board
-- forgets the order of the entries in the files, and how they are stored.
use arb_bridge_peripherals.Base.{
  ◌≡◌, refl, sym, ap, subst, ◌∙◌, Option, none, some, List, [], ◌∷◌, Text, inl, inr, ite, Triple,
  Post-pure, Post-bind, Post-weaken,
}
use mathlib.Core.Path.{fun_ext}
use arb_bridge_peripherals.Base.Dict.{lookup-erase_self, lookup-erase_ne}
use arb_bridge_peripherals.Upgrades.Names.{ContractName, ContractName-discrete}
use arb_bridge_peripherals.Upgrades.Node.{Hre, World, Call, QueuedUpdate, CurrentDeployment}
use arb_bridge_peripherals.Upgrades.Verify.{deployment_of}
use arb_bridge_peripherals.Upgrades.Update.{Progress, update_one, update_each}
use arb_bridge_peripherals.Upgrades.Update.Progress.{
  queue_entry, updated, advance, advance-no_entry, advance-update, after_update,
  deployment_of-set_deployment_self, deployment_of-set_deployment_ne, Saved,
}
use arb_bridge_peripherals.Upgrades.Update.Calls.{Sets}
use arb_bridge_peripherals.Upgrades.Update.Rounds.{Turned, Stopped, update_one-Turned}
use arb_bridge_peripherals.Upgrades.Update.Loop.{advance_all}

abbrev pub Board : Type 0
Board = ContractName → Option CurrentDeployment × Option QueuedUpdate

abbrev pub board_of : Progress → Board
board_of p n = (deployment_of p.0 n, queue_entry p n)

-- An update is applied: it becomes the contract's entry, and is queued no more.
unfoldable pub apply_update : ContractName → CurrentDeployment → QueuedUpdate → Board → Board
apply_update n d q b m = ite (ContractName-discrete m n) (some (updated d q), none) (b m)

board_of-after_update :
    (n : ContractName) (d : CurrentDeployment) (q : QueuedUpdate) (p : Progress)
    → board_of (after_update n d q p) ≡ apply_update n d q (board_of p)
unfolding apply_update
board_of-after_update n d q p = fun_ext (λ m. at m (ContractName-discrete m n))
  where
    at :
        (m : ContractName) (c : Dec (m ≡ n))
        → board_of (after_update n d q p) m ≡ ite c (some (updated d q), none) (board_of p m)
    at m (yes same) = rw same (
        cc (
          deployment_of-set_deployment_self p.0 n (updated d q),
          lookup-erase_self ContractName-discrete n p.1,
        ))
    at m (no other) = cc (
      deployment_of-set_deployment_ne p.0 m n (updated d q) other,
      lookup-erase_ne ContractName-discrete m n p.1 other,
    )

module _ (H : Hre) (signer : Text) where
  -- A board and a state of the chain that come from others by upgrades: each sends a call that puts the
  -- queued contract behind the proxy, and then applies the update to a contract that has an entry.
  pub data Applies : Board → H.State → Board → H.State → Type 0 where
    finished : (b : Board) (s : H.State) → Applies b s b s
    apply :
        (n : ContractName) (d : CurrentDeployment) (q : QueuedUpdate) (call : Call) (b : Board)
        (s t : H.State) (c : Board) (u : H.State)
        → b n ≡ (some d, some q)
        → Sets n d q call
        → H.send signer call s ≡ some t
        → Applies (apply_update n d q b) t c u
        → Applies b s c u

  -- A round applies an update, or it does nothing.
  Turned-Applies :
      (n : ContractName) (p p' : Progress) (s : H.State) (t : World H) (c : Board) (u : H.State)
      → Turned H signer p n s p' t
      → Applies (board_of p') t.chain c u
      → Applies (board_of p) s c u
  Turned-Applies n p p' s t c u (saved, inl (same, e, chain)) h =
      subst (λ x. Applies (board_of p) x c u) chain
        (subst (λ x. Applies (board_of x) t.chain c u) same h)
  Turned-Applies n p p' s t c u (saved, inr (d, q, made, same)) h =
      apply n d q made.call (board_of p) s t.chain c u (cc (made.entry, made.queued)) made.sets
        made.sent
        (subst (λ b. Applies b t.chain c u) (ap board_of same ∙ board_of-after_update n d q p) h)

  Turned-advance :
      (n : ContractName) (p p' : Progress) (s : H.State) (t : World H)
      → Turned H signer p n s p' t
      → p' ≡ advance n p
  Turned-advance n p p' s t (saved, inl (same, e, chain)) = same ∙ sym (advance-no_entry n p e)
  Turned-advance n p p' s t (saved, inr (d, q, made, same)) =
      same ∙ sym (advance-update n p d q made.entry made.queued)

  -- The files of a world hold a progress that has come so from another.
  abbrev pub Refines : Progress → H.State → Progress → World H → Type 0
  Refines p s p' t = Saved H p' t × Applies (board_of p) s (board_of p') t.chain

  -- A world that a run has stopped in after such progress.
  abbrev pub Breaks : Progress → H.State → World H → Type 0
  Breaks p s t =
      (p' : Progress) × (s' : H.State) × Applies (board_of p) s (board_of p') s'
      × Stopped H signer p' s' t

  pub update_each-Triple :
      (ns : List ContractName) (p : Progress) (w : World H)
      → Saved H p w
      → Triple
          (λ p' t. Refines p w.chain p' t × (p' ≡ advance_all ns p))
          (Breaks p w.chain)
          (update_each H signer ns p)
          w
  unfolding update_each
  update_each-Triple [] p w saved = Post-pure p w ((saved, finished (board_of p) w.chain), refl)
  update_each-Triple (n ∷ ns) p w saved =
      Post-bind {P = λ p' t. Turned H signer p n w.chain p' t} _ _ w
        (Post-weaken (update_one H signer n p) w (λ p' t h. h)
          (λ t h. (p, w.chain, finished (board_of p) w.chain, h))
          (update_one-Turned H signer n p w saved))
        λ p' t turned.
          Post-weaken (update_each H signer ns p') t
            (λ p'' u ((saved', steps), all). (
              (saved', Turned-Applies n p p' w.chain t (board_of p'') u.chain turned steps),
              subst (λ x. p'' ≡ advance_all ns x) (Turned-advance n p p' w.chain t turned) all,
            ))
            (λ u (p'', s, steps, stopped).
              (p'', s, Turned-Applies n p p' w.chain t (board_of p'') s turned steps, stopped))
            (update_each-Triple ns p' t turned.0)
