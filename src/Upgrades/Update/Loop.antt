-- ===== src/Upgrades/Update/Loop.antt =====
-- The progress that the rounds of the update loop make, one after the other.
use arb_bridge_peripherals.Base.{
  ◌≡◌, sym, subst, ◌∙◌, ◌⊎◌, inl, inr, true, some, List, [], ◌∷◌, arith,
}
use arb_bridge_peripherals.Base.Dict.{contains}
use arb_bridge_peripherals.Upgrades.Names.{ContractName, ContractName-discrete}
use arb_bridge_peripherals.Upgrades.Node.{QueuedUpdate, CurrentDeployment}
use arb_bridge_peripherals.Upgrades.Verify.{deployment_of}
use arb_bridge_peripherals.Upgrades.Update.{Progress}
use arb_bridge_peripherals.Upgrades.Update.Progress.{
  queue_entry, IsPending, IsDone, Tracks, Tracks-refl, Tracks-trans, advance, advance-Tracks,
  advance-IsDone,
}

abbrev pub advance_all : List ContractName → Progress → Progress
advance_all [] p = p
advance_all (n ∷ ns) p = advance_all ns (advance n p)

pub advance_all-Tracks : (ns : List ContractName) (p : Progress) → Tracks p (advance_all ns p)
advance_all-Tracks [] p = Tracks-refl p
advance_all-Tracks (n ∷ ns) p =
    Tracks-trans p (advance n p) (advance_all ns (advance n p)) (advance-Tracks n p)
      (advance_all-Tracks ns (advance n p))

-- What is done stays done.
IsDone-Tracks : (n : ContractName) (p q r : Progress) → IsDone p q n → Tracks q r → IsDone p r n
IsDone-Tracks n p q r done f = stays done (f n)
  where
    stays : IsDone p q n → IsPending q r n ⊎ IsDone q r n → IsDone p r n
    stays (d, u, a₀, a₁, a₂, a₃) (inl b) = (d, u, a₀, a₁, b.1 ∙ a₂, b.0 ∙ a₃)
    stays (d, u, a₀, a₁, a₂, a₃) (inr (d', u', b₀, b₁, b₂, b₃)) = cc

-- Every contract of the list that has an entry and an update is done.
pub advance_all-IsDone :
    (n : ContractName) (ns : List ContractName) (p : Progress) (d : CurrentDeployment)
    (q : QueuedUpdate)
    → contains ContractName-discrete n ns ≡ true
    → deployment_of p.0 n ≡ some d
    → queue_entry p n ≡ some q
    → IsDone p (advance_all ns p) n
unfolding contains
advance_all-IsDone n [] p d q c e f = cc
advance_all-IsDone n (m ∷ ns) p d q c e f =
    at (ContractName-discrete n m) (advance-Tracks m p n)
      (λ c' e' f'. advance_all-IsDone n ns (advance m p) d q c' e' f') (λ other. ground arith)
  where
    later : Progress
    later = advance_all ns (advance m p)

    at :
        Dec (n ≡ m)
        → IsPending p (advance m p) n ⊎ IsDone p (advance m p) n
        → (contains ContractName-discrete n ns ≡ true
            → deployment_of (advance m p).0 n ≡ some d
            → queue_entry (advance m p) n ≡ some q
            → IsDone (advance m p) later n)
        → (¬ (n ≡ m) → contains ContractName-discrete n ns ≡ true)
        → IsDone p later n
    at (yes same) t ih c' =
        IsDone-Tracks n p (advance m p) later
          (subst (λ k. IsDone p (advance k p) n) same (advance-IsDone n p d q e f))
          (advance_all-Tracks ns (advance m p))
    at (no other) (inr done) ih c' =
        IsDone-Tracks n p (advance m p) later done (advance_all-Tracks ns (advance m p))
    at (no other) (inl pending) ih c' = back (ih (c' other) (pending.1 ∙ e) (pending.0 ∙ f))
      where
        back : IsDone (advance m p) later n → IsDone p later n
        back (d', u', b₀, b₁, b₂, b₃) = (d', u', sym pending.1 ∙ b₀, sym pending.0 ∙ b₁, b₂, b₃)
