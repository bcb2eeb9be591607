-- ===== src/Upgrades/Frames.antt =====
-- The steps that leave the tasks' files alone.
use arb_bridge_peripherals.Base.{
  ◌≡◌, refl, ◌∙◌, Bool, Option, none, some, List, [], ◌∷◌, ◌&&◌, Text, IsPreorder, Moves,
  moves_rules, pure, exit, throw, Moves-pure, Moves-bind, Moves-throw, Moves-gets, arith,
  if◌then◌else◌, ◌>>=◌,
}
use arb_bridge_peripherals.Base.Dict.{Dict}
use arb_bridge_peripherals.Upgrades.Names.{ContractName}
use arb_bridge_peripherals.Upgrades.Node.{
  Hre, World, Run, CurrentDeployment, CurrentDeployments, ask_user, send, Call,
}
use arb_bridge_peripherals.Upgrades.Files.{is_yes, get_deployments, load_tmp_deployments}
use arb_bridge_peripherals.Upgrades.Signer.{await_compile, impersonate, first_signer, get_signer}
use arb_bridge_peripherals.Upgrades.Verify.{
  tracked, get_admin_from_proxy_storage, rollup_proxy, verify_beacon, verify_facet, verify_proxy,
  verify_contract, verify_each, verify_current_implementations,
}

module _ (H : Hre) where
  pub record SameFiles (w t : World H) : Type 0 where
    pub queued : t.queued_updates ≡ w.queued_updates
    pub current : t.current_deployment ≡ w.current_deployment
    pub tmp : t.tmp_deployment ≡ w.tmp_deployment

  pub SameFiles-preorder : IsPreorder SameFiles
  SameFiles-preorder = record {
    reflexive = λ s. record { queued = refl; current = refl; tmp = refl };
    transitive = λ s t u p q. record {
      queued = q.queued ∙ p.queued;
      current = q.current ∙ p.current;
      tmp = q.tmp ∙ p.tmp;
    };
  }

  pub ask_user-SameFiles : Moves SameFiles (ask_user H)
  unfolding ask_user
  ask_user-SameFiles = record { moves = λ s. ground arith }

  impersonate-SameFiles : (a : Text) → Moves SameFiles (impersonate H a)
  unfolding impersonate
  impersonate-SameFiles a = record { moves = λ s. ground arith }

  pub send-SameFiles : (a : Text) (c : Call) → Moves SameFiles (send H a c)
  unfolding send
  send-SameFiles a c = record { moves = λ s. ground arith }

  get_deployments-SameFiles : Moves SameFiles (get_deployments H)
  unfolding get_deployments
  get_deployments-SameFiles =
      Moves-bind SameFiles-preorder _ _ (Moves-gets SameFiles-preorder _) λ file. at file
    where
      at :
          (file : Option CurrentDeployments)
          → Moves SameFiles (elim file as (λ _. Run H CurrentDeployments) [
            | none ↦ throw "No current deployments"
            | some d ↦ pure d
          ])
      at none = Moves-throw SameFiles-preorder _
      at (some d) = Moves-pure SameFiles-preorder d

  load_tmp_deployments-SameFiles : Moves SameFiles (load_tmp_deployments H)
  unfolding load_tmp_deployments
  load_tmp_deployments-SameFiles =
      Moves-bind SameFiles-preorder _ _ (Moves-gets SameFiles-preorder _) λ file. at file
    where
      at :
          (file : Option CurrentDeployments)
          → Moves SameFiles (elim file as (λ _. Run H (Option CurrentDeployments)) [
            | none ↦ pure none
            | some d ↦ (do reply ← ask_user H; if is_yes reply then pure (some d) else exit)
          ])
      at none = Moves-pure SameFiles-preorder none
      at (some d) = search (moves_rules, SameFiles-preorder, ask_user-SameFiles) depth 10

  verify_contract-SameFiles :
      (d : CurrentDeployments) (owner : Text) (n : ContractName) (e : CurrentDeployment)
      → Moves SameFiles (verify_contract H d owner n e)
  unfolding verify_contract verify_beacon verify_facet verify_proxy rollup_proxy
      get_admin_from_proxy_storage
  verify_contract-SameFiles d owner n e = search (moves_rules, SameFiles-preorder) depth 20

  verify_each-SameFiles :
      (d : CurrentDeployments) (tmp : Option CurrentDeployments) (owner : Text)
      (es : Dict ContractName CurrentDeployment) (success : Bool)
      → Moves SameFiles (verify_each H d tmp owner es success)
  unfolding verify_each
  verify_each-SameFiles d tmp owner [] success = Moves-pure SameFiles-preorder success
  verify_each-SameFiles d tmp owner ((n, e) ∷ rest) success =
      Moves-bind SameFiles-preorder _ _ (verify_contract-SameFiles d owner n (tracked tmp n e))
        λ good. verify_each-SameFiles d tmp owner rest (success && good)

  -- The verification changes no file.
  pub verify-SameFiles : Moves SameFiles (verify_current_implementations H)
  unfolding verify_current_implementations await_compile
  verify-SameFiles =
      search
        (
          moves_rules, SameFiles-preorder, get_deployments-SameFiles,
          load_tmp_deployments-SameFiles, verify_each-SameFiles,
        )
        depth 20

  pub first_signer-SameFiles : Moves SameFiles (first_signer H)
  unfolding first_signer
  first_signer-SameFiles = at H.signers
    where
      at :
          (l : List Text)
          → Moves SameFiles (elim l as (λ _. Run H Text) [
            | [] ↦ throw "No signer - make sure a key is properly set (check hardhat config)"
            | s ∷ ss ↦ pure s
          ])
      at [] = Moves-throw SameFiles-preorder _
      at (s ∷ ss) = Moves-pure SameFiles-preorder s

  pub get_signer-SameFiles : (a : Text) → Moves SameFiles (get_signer H a)
  unfolding get_signer
  get_signer-SameFiles a =
      search (moves_rules, SameFiles-preorder, impersonate-SameFiles, first_signer-SameFiles) depth
        20
