-- ===== src/Upgrades/Update/Progress.antt =====
-- What a run of the update loop leaves in its two files, whether it ends well or breaks off.
use arb_bridge_peripherals.Base.{
  ◌≡◌, ◌≢◌, refl, sym, ◌∙◌, ◌⊎◌, inl, inr, Option, none, some, [], arith, Option-cases,
}
use arb_bridge_peripherals.Base.Dict.{
  lookup, erase, lookup-insert_self, lookup-insert_ne, lookup-erase_self, lookup-erase_ne,
}
use arb_bridge_peripherals.Upgrades.Names.{ContractName, ContractName-discrete}
use arb_bridge_peripherals.Upgrades.Node.{
  Hre, World, QueuedUpdate, CurrentDeployment, CurrentDeployments,
}
use arb_bridge_peripherals.Upgrades.Verify.{deployment_of}
use arb_bridge_peripherals.Upgrades.Update.{Progress, set_deployment}

abbrev pub queue_entry : Progress → ContractName → Option QueuedUpdate
queue_entry p n = lookup ContractName-discrete n p.1

-- A contract that is as it was: queued as before, with the entry of before.
abbrev pub IsPending : Progress → Progress → ContractName → Type 0
IsPending p p' n =
    (queue_entry p' n ≡ queue_entry p n) × (deployment_of p'.0 n ≡ deployment_of p.0 n)

-- The entry after an update: the proxy of before, with what is queued.
abbrev pub updated : CurrentDeployment → QueuedUpdate → CurrentDeployment
updated d q = record {
  proxy_address = d.proxy_address;
  impl_address = q.address;
  impl_deployment_txn = q.deploy_txn;
  impl_arbitrum_commit_hash = q.arbitrum_commit_hash;
  impl_build_info = [];
}

-- A contract that is done: its update has left the queue and stands in its entry.
abbrev pub IsDone : Progress → Progress → ContractName → Type 0
IsDone p p' n =
    (d : CurrentDeployment) × (q : QueuedUpdate) × (deployment_of p.0 n ≡ some d)
    × (queue_entry p n ≡ some q)
    × (deployment_of p'.0 n ≡ some (updated d q))
    × (queue_entry p' n ≡ none)

-- Every contract is as it was or done.
abbrev pub Tracks : Progress → Progress → Type 0
Tracks p p' = (n : ContractName) → IsPending p p' n ⊎ IsDone p p' n

pub Tracks-refl : (p : Progress) → Tracks p p
Tracks-refl p n = inl (refl, refl)

pub Tracks-trans : (p q r : Progress) → Tracks p q → Tracks q r → Tracks p r
Tracks-trans p q r f g n = join (f n) (g n)
  where
    join :
        IsPending p q n ⊎ IsDone p q n
        → IsPending q r n ⊎ IsDone q r n
        → IsPending p r n ⊎ IsDone p r n
    join (inl a) (inl b) = inl (b.0 ∙ a.0, b.1 ∙ a.1)
    join (inl a) (inr (d, u, b₀, b₁, b₂, b₃)) = inr (d, u, sym a.1 ∙ b₀, sym a.0 ∙ b₁, b₂, b₃)
    join (inr (d, u, a₀, a₁, a₂, a₃)) (inl b) = inr (d, u, a₀, a₁, b.1 ∙ a₂, b.0 ∙ a₃)
    join (inr (d, u, a₀, a₁, a₂, a₃)) (inr (d', u', b₀, b₁, b₂, b₃)) = cc

-- One round of the loop, without its transaction.
unfoldable pub advance : ContractName → Progress → Progress
advance n p = elim (deployment_of p.0 n) [
  | none ↦ p
  | some d ↦ elim (queue_entry p n) [
    | none ↦ p
    | some q ↦ (set_deployment p.0 n (updated d q), erase ContractName-discrete n p.1)
  ]
]

pub deployment_of-set_deployment_self :
    (p : CurrentDeployments) (n : ContractName) (d : CurrentDeployment)
    → deployment_of (set_deployment p n d) n ≡ some d
unfolding deployment_of set_deployment
deployment_of-set_deployment_self p n d = lookup-insert_self ContractName-discrete n d p.contracts

pub deployment_of-set_deployment_ne :
    (p : CurrentDeployments) (m n : ContractName) (d : CurrentDeployment)
    → m ≢ n
    → deployment_of (set_deployment p n d) m ≡ deployment_of p m
unfolding deployment_of set_deployment
deployment_of-set_deployment_ne p m n d h =
    lookup-insert_ne ContractName-discrete m n d p.contracts h

abbrev pub after_update : ContractName → CurrentDeployment → QueuedUpdate → Progress → Progress
after_update n d q p = (set_deployment p.0 n (updated d q), erase ContractName-discrete n p.1)

pub advance-no_entry :
    (n : ContractName) (p : Progress) → deployment_of p.0 n ≡ none → advance n p ≡ p
unfolding advance
advance-no_entry n p e = ground arith

pub advance-not_queued :
    (n : ContractName) (p : Progress) → queue_entry p n ≡ none → advance n p ≡ p
unfolding advance
advance-not_queued n p e = ground arith

pub advance-update :
    (n : ContractName) (p : Progress) (d : CurrentDeployment) (q : QueuedUpdate)
    → deployment_of p.0 n ≡ some d
    → queue_entry p n ≡ some q
    → advance n p ≡ after_update n d q p
unfolding advance
advance-update n p d q e f = ground arith

-- The contract of the round is done, if it has an entry and an update; no other is touched.
pub advance-Tracks : (n : ContractName) (p : Progress) → Tracks p (advance n p)
advance-Tracks n p m = elim (Option-cases (deployment_of p.0 n)) [
  | inl e ↦ rw (advance-no_entry n p e) (inl (refl, refl))
  | inr (d, e) ↦ elim (Option-cases (queue_entry p n)) [
    | inl f ↦ rw (advance-not_queued n p f) (inl (refl, refl))
    | inr (q, f) ↦ rw (advance-update n p d q e f) (at d q e f (ContractName-discrete m n))
  ]
]
  where
    at :
        (d : CurrentDeployment) (q : QueuedUpdate)
        → deployment_of p.0 n ≡ some d
        → queue_entry p n ≡ some q
        → Dec (m ≡ n)
        → IsPending p (after_update n d q p) m ⊎ IsDone p (after_update n d q p) m
    at d q e f (yes same) = inr (
      d,
      q,
      rw same e,
      rw same f,
      rw same (deployment_of-set_deployment_self p.0 n (updated d q)),
      rw same (lookup-erase_self ContractName-discrete n p.1),
    )
    at d q e f (no other) = inl (
      lookup-erase_ne ContractName-discrete m n p.1 other,
      deployment_of-set_deployment_ne p.0 m n (updated d q) other,
    )

pub advance-IsDone :
    (n : ContractName) (p : Progress) (d : CurrentDeployment) (q : QueuedUpdate)
    → deployment_of p.0 n ≡ some d
    → queue_entry p n ≡ some q
    → IsDone p (advance n p) n
advance-IsDone n p d q e f = rw (advance-update n p d q e f) (
  d,
  q,
  e,
  f,
  deployment_of-set_deployment_self p.0 n (updated d q),
  lookup-erase_self ContractName-discrete n p.1,
)

module _ (H : Hre) where
  -- The two files hold the loop's deployments and its queue.
  pub record Saved (p : Progress) (w : World H) : Type 0 where
    pub tmp : w.tmp_deployment ≡ some p.0
    pub queue : w.queued_updates ≡ some p.1
