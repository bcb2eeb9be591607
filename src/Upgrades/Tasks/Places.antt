-- ===== src/Upgrades/Tasks/Places.antt =====
-- The proxies of the contracts that a file of deployments has, and the steps that keep them.
use arb_bridge_peripherals.Base.{
  ◌≡◌, refl, sym, ap, Option, none, some, List, [], ◌∷◌, Text, Triple, Post-bind, Post-then,
  Post-weaken, subst, Post-pure, Post-throw, Post-gets, Post-if, exit, effects, if◌then◌else◌,
  Moves, Moves-Triple, arith, ◌>>=◌, ◌>>◌, gets, pure, throw,
}
use arb_bridge_peripherals.Base.Dict.{Dict, lookup, insert}
use arb_bridge_peripherals.Upgrades.Names.{ContractName, ContractName-discrete}
use arb_bridge_peripherals.Upgrades.Node.{
  Hre, World, Run, CurrentDeployment, CurrentDeployments, QueuedUpdate, ask_user,
}
use arb_bridge_peripherals.Upgrades.Files.{
  get_deployments, load_tmp_deployments, create_or_load_tmp_deployments_file, is_yes, write_tmp,
  write_current, unlink_tmp, drop_build_info,
}
use arb_bridge_peripherals.Upgrades.Files.Disk.{Post-on_disk}
use arb_bridge_peripherals.Upgrades.Tasks.Queueing.{SameDeployments, ask_user-SameDeployments}
use arb_bridge_peripherals.Upgrades.Update.{set_deployment, new_deployment}
use arb_bridge_peripherals.Upgrades.Verify.{deployment_of}

-- The names of the contracts with the addresses of their proxies, in the file's order.
unfoldable pub proxies : Dict ContractName CurrentDeployment → List (ContractName × Text)
proxies [] = []
proxies ((n, d) ∷ ds) = (n, d.proxy_address) ∷ proxies ds

-- These and the address of the proxy admin.
abbrev pub places : CurrentDeployments → Text × List (ContractName × Text)
places d = (d.proxy_admin_address, proxies d.contracts)

proxies-insert :
    (n : ContractName) (d e : CurrentDeployment) (ds : Dict ContractName CurrentDeployment)
    → lookup ContractName-discrete n ds ≡ some d
    → e.proxy_address ≡ d.proxy_address
    → proxies (insert ContractName-discrete n e ds) ≡ proxies ds
unfolding proxies lookup insert
proxies-insert n d e [] h p = cc
proxies-insert n d e ((m, x) ∷ ds) h p = ground (arith, proxies-insert n d e ds, h, p)

-- The entry of an update is at the same proxy.
pub places-set_deployment :
    (tmp : CurrentDeployments) (n : ContractName) (d : CurrentDeployment) (q : QueuedUpdate)
    → deployment_of tmp n ≡ some d
    → places (set_deployment tmp n (new_deployment d q)) ≡ places tmp
unfolding set_deployment new_deployment lookup deployment_of
places-set_deployment tmp n d q h =
    ap (λ x. (tmp.proxy_admin_address, x))
      (proxies-insert n d (new_deployment d q) tmp.contracts h refl)

pub proxies-drop_build_info :
    (ds : Dict ContractName CurrentDeployment) → proxies (drop_build_info ds) ≡ proxies ds
unfolding proxies
proxies-drop_build_info [] = refl
proxies-drop_build_info ((n, d) ∷ ds) =
    ap (λ x. (n, d.proxy_address) ∷ x) (proxies-drop_build_info ds)

abbrev pub AtPlaces : Text × List (ContractName × Text) → Option CurrentDeployments → Type 0
AtPlaces p none = Unit
AtPlaces p (some d) = places d ≡ p

module _ (H : Hre) (p : Text × List (ContractName × Text)) where
  -- Both files of deployments, where they are there, have the contracts at these places.
  pub record Placed (w : World H) : Type 0 where
    pub current : AtPlaces p w.current_deployment
    pub tmp : AtPlaces p w.tmp_deployment

  pub Placed-SameDeployments : (w t : World H) → SameDeployments H w t → Placed w → Placed t
  Placed-SameDeployments w t f h = record {
    current = subst (AtPlaces p) (sym f.current) h.current;
    tmp = subst (AtPlaces p) (sym f.tmp) h.tmp;
  }

  -- A run that keeps the places, and a condition on its value.
  abbrev pub KeepsPlaces : {A : Type 0} → (A → Type 0) → Run H A → World H → Type 0
  KeepsPlaces Q m w = Triple (λ a t. Q a × Placed t) Placed m w

  -- A step that leaves these files alone.
  pub kept :
      {A : Type 0} (m : Run H A) (w : World H)
      → Moves (SameDeployments H) m
      → Placed w
      → KeepsPlaces (λ _. Unit) m w
  kept m w h k =
      Post-weaken m w (λ a t f. (tt, Placed-SameDeployments w t f k))
        (λ t f. Placed-SameDeployments w t f k) (Moves-Triple (SameDeployments H) m w h)

  module _ {A B : Type 0} {Q : B → Type 0} where
    pub kept_bind :
        (m : Run H A) (f : A → Run H B) (w : World H)
        → Moves (SameDeployments H) m
        → Placed w
        → ((a : A) (t : World H) → Placed t → KeepsPlaces Q (f a) t)
        → KeepsPlaces Q (m >>= f) w
    kept_bind m f w h k g = Post-bind m f w (kept m w h k) (λ a t k'. g a t k'.1)

    pub kept_then :
        (m : Run H A) (n : Run H B) (w : World H)
        → Moves (SameDeployments H) m
        → Placed w
        → ((t : World H) → Placed t → KeepsPlaces Q n t)
        → KeepsPlaces Q (m >> n) w
    kept_then m n w h k g = Post-then m n w (kept m w h k) (λ a t k'. g t k'.1)

  pub write_tmp-places :
      (d : CurrentDeployments) (w : World H)
      → places d ≡ p
      → Placed w
      → KeepsPlaces (λ _. Unit) (write_tmp H d) w
  unfolding write_tmp
  write_tmp-places d w e k =
      Post-on_disk H _ w (λ disk. (tt, record { current = k.current; tmp = e }))
        (λ disk. record { current = k.current; tmp = k.tmp })

  pub write_current-places :
      (d : CurrentDeployments) (w : World H)
      → places d ≡ p
      → Placed w
      → KeepsPlaces (λ _. Unit) (write_current H d) w
  unfolding write_current
  write_current-places d w e k =
      Post-on_disk H _ w (λ disk. (tt, record { current = e; tmp = k.tmp }))
        (λ disk. record { current = k.current; tmp = k.tmp })

  pub unlink_tmp-places : (w : World H) → Placed w → KeepsPlaces (λ _. Unit) (unlink_tmp H) w
  unfolding unlink_tmp
  unlink_tmp-places w k =
      Post-on_disk H _ w (λ disk. (tt, record { current = k.current; tmp = tt }))
        (λ disk. record { current = k.current; tmp = k.tmp })

  pub exit-places : {A : Type 0} {Q : A → Type 0} (w : World H) → Placed w → KeepsPlaces Q exit w
  unfolding effects
  exit-places w k = record { holds = k }

  pub load_tmp_deployments-places :
      (w : World H) → Placed w → KeepsPlaces (AtPlaces p) (load_tmp_deployments H) w
  unfolding load_tmp_deployments
  load_tmp_deployments-places w k =
      Post-bind {P = λ file t. AtPlaces p file × Placed t} (gets (λ x. x.tmp_deployment)) _ w
        (Post-gets _ w (k.tmp, k)) (λ file t (at_places, k'). at file at_places t k')
    where
      at :
          (file : Option CurrentDeployments)
          → AtPlaces p file
          → (t : World H) → Placed t
          → KeepsPlaces
              (AtPlaces p)
              (elim file as (λ _. Run H (Option CurrentDeployments)) [
                | none ↦ pure none
                | some d ↦ (do reply ← ask_user H; if is_yes reply then pure (some d) else exit)
              ])
              t
      at none h t k' = Post-pure none t (tt, k')
      at (some d) h t k' =
          kept_bind (ask_user H) (λ reply. if is_yes reply then pure (some d) else exit) t
            (ask_user-SameDeployments H) k'
            λ reply u k₁.
              Post-if (is_yes reply) (pure (some d)) exit u (λ _. Post-pure (some d) u (h, k₁))
                (λ _. exit-places u k₁)

  pub get_deployments-places :
      (w : World H) → Placed w → KeepsPlaces (λ d. places d ≡ p) (get_deployments H) w
  unfolding get_deployments
  get_deployments-places w k =
      Post-bind {P = λ file t. AtPlaces p file × Placed t} (gets (λ x. x.current_deployment)) _ w
        (Post-gets _ w (k.current, k)) (λ file t (at_places, k'). at file at_places t k')
    where
      at :
          (file : Option CurrentDeployments)
          → AtPlaces p file
          → (t : World H) → Placed t
          → KeepsPlaces
              (λ d. places d ≡ p)
              (elim file as (λ _. Run H CurrentDeployments) [
                | none ↦ throw "No current deployments"
                | some d ↦ pure d
              ])
              t
      at none h t k' = Post-throw _ t k'
      at (some d) h t k' = Post-pure d t (h, k')

  pub create_or_load-places :
      (w : World H)
      → Placed w
      → KeepsPlaces (λ d. places d ≡ p) (create_or_load_tmp_deployments_file H) w
  unfolding create_or_load_tmp_deployments_file
  create_or_load-places w k = Post-bind _ _ w (get_deployments-places w k) λ current t (e, k₁).
      Post-bind _ _ t (load_tmp_deployments-places t k₁) λ val u (h, k₂). at val h current e u k₂
    where
      at :
          (val : Option CurrentDeployments)
          → AtPlaces p val
          → (current : CurrentDeployments) → places current ≡ p
          → (u : World H) → Placed u
          → KeepsPlaces
              (λ d. places d ≡ p)
              (elim val as (λ _. Run H CurrentDeployments) [
                | none ↦ write_tmp H current >> pure current
                | some d ↦ pure d
              ])
              u
      at none h current e u k' =
          Post-then _ _ u (write_tmp-places current u e k') λ _ t k₁. Post-pure current t (e, k₁.1)
      at (some d) h current e u k' = Post-pure d u (h, k')
