-- ===== src/Upgrades/Deploy/Queue.antt =====
-- What `deployLogic` leaves of the queue.
use arb_bridge_peripherals.Base.{
  ℕ, Post, Result, ok, err, failed, ◌≡◌, refl, sym, subst, ◌∙◌, ◌⊎◌, inl, inr, true, Option, none,
  some, List, [], ◌∷◌, Text, Triple, Moves-Triple, Post-pure, pure, ◌>>=◌, if◌then◌else◌,
  if◌then◌else◌, arith, Post-ask, Post-bind, Post-then, Post-throw_if, Post-if, Post-weaken, All,
}
use arb_bridge_peripherals.Base.Dict.{
  lookup, insert, contains, lookup-insert_self, lookup-insert_ne,
}
use arb_bridge_peripherals.Upgrades.Names.{ContractName, ContractName-discrete}
use arb_bridge_peripherals.Upgrades.Node.{
  Hre, World, Run, read, Read, deploy, ask_user, QueuedUpdate, QueuedUpdates, Receipt,
}
use arb_bridge_peripherals.Upgrades.Files.{write_queued}
use arb_bridge_peripherals.Upgrades.Files.Disk.{Post-on_disk}
use arb_bridge_peripherals.Upgrades.Frames.{SameFiles, ask_user-SameFiles}
use arb_bridge_peripherals.Upgrades.Deploy.{
  is_falsy, constructor_arg, queued_of, arb_sys, current_layer, deploy_one, deploy_or_skip,
  deploy_each,
}
use arb_bridge_peripherals.Upgrades.Deploy.Receipts.{
  entry_of, IsReceipt, Deploys, Deploys-IsReceipt,
}

module _ (H : Hre) where
  -- The entry that a new deployment of the contract has put in the queue.
  abbrev pub IsNew : QueuedUpdates → ContractName → Type 0
  IsNew q n =
      (r : Receipt) × IsReceipt H n r × (lookup ContractName-discrete n q ≡ some (entry_of H r))

  abbrev pub IsKept : QueuedUpdates → QueuedUpdates → ContractName → Type 0
  IsKept q q' n = lookup ContractName-discrete n q' ≡ lookup ContractName-discrete n q

  -- Every contract's entry is the one of before, or a new one of a contract of the list.
  abbrev pub Extends : List ContractName → QueuedUpdates → QueuedUpdates → Type 0
  Extends ns q q' =
      (n : ContractName)
      → IsKept q q' n ⊎ ((contains ContractName-discrete n ns ≡ true) × IsNew q' n)

  abbrev pub InFile : QueuedUpdates → World H → Type 0
  InFile q w = w.queued_updates ≡ some q

  current_layer-Triple :
      (q : QueuedUpdates) (w : World H)
      → InFile q w
      → Triple (λ layer t. InFile q t) (InFile q) (current_layer H) w
  unfolding current_layer
  current_layer-Triple q w h =
      Post-bind (read H (Read.code arb_sys)) _ w (Post-ask _ w (λ a e. h) h)
        (λ code t i. Post-pure _ t i)

  deploy-Triple :
      (signer : Text) (n : ContractName) (arg : Option ℕ) (q : QueuedUpdates) (w : World H)
      → InFile q w
      → Triple (λ r t. Deploys H signer n arg r × InFile q t) (InFile q) (deploy H signer n arg) w
  unfolding deploy
  deploy-Triple signer n arg q w h = record { holds = at (H.deploy signer n arg w.chain) refl }
    where
      at :
          (o : Option (Receipt × H.State))
          → H.deploy signer n arg w.chain ≡ o
          → Post
              (λ r t. Deploys H signer n arg r × InFile q t)
              (InFile q)
              (elim o as (λ _. Result Receipt × World H) [
                | none ↦ (err failed, w)
                | some (r, s) ↦ (ok r, record w { chain = s })
              ])
      at none e = h
      at (some (r, s)) e = ((w.chain, s, e), h)

  -- A deployment puts its entry in the queue and saves the queue, or it stops with the queue as it was.
  abbrev Inserted : ContractName → QueuedUpdates → QueuedUpdates → World H → Type 0
  Inserted n q q' t =
      (r : Receipt) × IsReceipt H n r
      × (q' ≡ insert ContractName-discrete n (entry_of H r) q)
      × InFile q' t

  deploy_one-Triple :
      (signer : Text) (n : ContractName) (q : QueuedUpdates) (w : World H)
      → InFile q w
      → Triple (Inserted n q) (InFile q) (deploy_one H signer n q) w
  unfolding deploy_one write_queued queued_of
  deploy_one-Triple signer n q w h = Post-bind _ _ w (current_layer-Triple q w h) (λ layer t i.
      Post-then {P = λ u v. InFile q v} _ _ t (Post-throw_if _ _ t (λ b. i) i) (λ _ u j.
        Post-bind _ _ u (deploy-Triple signer n (constructor_arg n) q u j) (λ r v (k, i).
          Post-then {P = λ _ x. InFile (insert ContractName-discrete n (entry_of H r) q) x} _ _ v
            (Post-on_disk H _ v (λ disk. refl) (λ disk. i))
            (λ _ x l. Post-pure _ x (r, Deploys-IsReceipt H signer n r k, refl, l)))))

  abbrev pub HasEntry : QueuedUpdates → ContractName → Type 0
  HasEntry q n = (u : QueuedUpdate) × (lookup ContractName-discrete n q ≡ some u)

  -- After a round, the contract has an entry, and no other has changed.
  abbrev Grown : ContractName → QueuedUpdates → QueuedUpdates → World H → Type 0
  Grown n q q' t =
      InFile q' t × ((m : ContractName) → IsKept q q' m ⊎ ((m ≡ n) × IsNew q' m)) × HasEntry q' n

  Inserted-Grown :
      (n : ContractName) (q q' : QueuedUpdates) (t : World H) → Inserted n q q' t → Grown n q q' t
  Inserted-Grown n q q' t (r, k, e, f) = (
    f,
    λ m. at m (ContractName-discrete m n),
    (
      entry_of H r,
      subst (λ x. lookup ContractName-discrete n x ≡ some u) (sym e)
          (lookup-insert_self ContractName-discrete n u q),
    ),
  )
    where
      u : QueuedUpdate
      u = entry_of H r

      at : (m : ContractName) → Dec (m ≡ n) → IsKept q q' m ⊎ ((m ≡ n) × IsNew q' m)
      at m (yes same) = inr (
        same,
        (
          r,
          subst (λ x. IsReceipt H x r) (sym same) k,
          rw (same, e) (lookup-insert_self ContractName-discrete n u q),
        ),
      )
      at m (no other) = inl (rw e (lookup-insert_ne ContractName-discrete m n u q other))

  deploy_or_skip-Triple :
      (signer : Text) (n : ContractName) (q : QueuedUpdates) (w : World H)
      → InFile q w
      → Triple (Grown n q) (InFile q) (deploy_or_skip H signer n q) w
  unfolding deploy_or_skip
  deploy_or_skip-Triple signer n q w h = at (lookup ContractName-discrete n q) refl
    where
      deployed_anew :
          (t : World H) → InFile q t → Triple (Grown n q) (InFile q) (deploy_one H signer n q) t
      deployed_anew t i =
          Post-weaken _ t (λ q' x. Inserted-Grown n q q' x) (λ x k. k)
            (deploy_one-Triple signer n q t i)

      at :
          (o : Option QueuedUpdate)
          → lookup ContractName-discrete n q ≡ o
          → Triple
              (Grown n q)
              (InFile q)
              (elim o as (λ _. Run H QueuedUpdates) [
                | none ↦ deploy_one H signer n q
                | some u ↦
                    (ask_user H >>= λ reply.
                    if is_falsy reply then pure q else deploy_one H signer n q)
              ])
              w
      at none e = deployed_anew w h
      at (some u) e =
          Post-bind {P = λ _ t. InFile q t} _ _ w
            (Post-weaken _ w (λ reply t s. s.queued ∙ h) (λ t s. s.queued ∙ h)
              (Moves-Triple (SameFiles H) (ask_user H) w (ask_user-SameFiles H)))
            (λ reply t i.
              Post-if (is_falsy reply) _ _ t (λ b. Post-pure q t (i, (λ m. inl refl), (u, e)))
                (λ b. deployed_anew t i))

  Grown-Extends :
      (n : ContractName) (ns : List ContractName) (q q' q'' : QueuedUpdates) (t : World H)
      → Grown n q q' t
      → Extends ns q' q''
      → Extends (n ∷ ns) q q''
  unfolding contains
  Grown-Extends n ns q q' q'' t (i, g, e) f m = at (g m) (f m)
    where
      at :
          IsKept q q' m ⊎ ((m ≡ n) × IsNew q' m)
          → IsKept q' q'' m ⊎ ((contains ContractName-discrete m ns ≡ true) × IsNew q'' m)
          → IsKept q q'' m ⊎ ((contains ContractName-discrete m (n ∷ ns) ≡ true) × IsNew q'' m)
      at (inl a) (inl b) = inl (b ∙ a)
      at (inr (same, (r, k, a))) (inl b) = inr (ground (arith, same), (r, k, b ∙ a))
      at a (inr (c, new)) = inr (ground (arith, c), new)

  HasEntry-Extends :
      (n : ContractName) (ns : List ContractName) (q q' : QueuedUpdates)
      → HasEntry q n
      → Extends ns q q'
      → HasEntry q' n
  HasEntry-Extends n ns q q' (u, e) f = at (f n)
    where
      at :
          IsKept q q' n ⊎ ((contains ContractName-discrete n ns ≡ true) × IsNew q' n)
          → HasEntry q' n
      at (inl k) = (u, k ∙ e)
      at (inr (c, (r, k, new))) = (entry_of H r, new)

  -- The file holds a queue that extends the one of the start.
  abbrev pub Extended : List ContractName → QueuedUpdates → World H → Type 0
  Extended ns q t = (q' : QueuedUpdates) × InFile q' t × Extends ns q q'

  -- The file holds such a queue with an entry for every contract of the list.
  abbrev pub Filled : List ContractName → QueuedUpdates → World H → Type 0
  Filled ns q t = (q' : QueuedUpdates) × InFile q' t × Extends ns q q' × All (HasEntry q') ns

  pub deploy_each-Triple :
      (signer : Text) (ns : List ContractName) (q : QueuedUpdates) (w : World H)
      → InFile q w
      → Triple (λ _ t. Filled ns q t) (Extended ns q) (deploy_each H signer ns q) w
  unfolding deploy_each
  deploy_each-Triple signer [] q w h = Post-pure tt w (q, h, (λ m. inl refl), tt)
  deploy_each-Triple signer (n ∷ ns) q w h =
      Post-bind _ _ w
        (Post-weaken _ w (λ q' t g. g) (λ t i. (q, i, λ m. inl refl))
          (deploy_or_skip-Triple signer n q w h))
        (λ q' t g.
          Post-weaken _ t
            (λ _ x ((q'', i, e, a) : Filled ns q' x).
              (q'', i, Grown-Extends n ns q q' q'' t g e, (HasEntry-Extends n ns q' q'' g.2 e, a)))
            (λ x ((q'', i, e) : Extended ns q' x). (q'', i, Grown-Extends n ns q q' q'' t g e))
            (deploy_each-Triple signer ns q' t g.0))
