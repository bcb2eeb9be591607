-- ===== src/Upgrades/Update/Calls.antt =====
-- What the transaction of an update does to its contract.
use arb_bridge_peripherals.Base.{
  ◌≡◌, refl, ◌⊎◌, inl, inr, Bool, true, false, ◌||◌, Option, none, some, Text, subst, if◌then◌else◌,
}
use arb_bridge_peripherals.Upgrades.Names.{
  ContractName, is_beacon_owned_by_eoa, is_beacon_owned_by_rollup, is_rollup_user_facet,
  is_rollup_admin_facet, has_post_init_hook,
}
use arb_bridge_peripherals.Upgrades.Node.{
  Call, upgrade_to, upgrade_beacon, set_facets, upgrade_and_call, upgrade, change_proxy_admin,
  transfer_ownership, QueuedUpdate, CurrentDeployment, CurrentDeployments,
}
use arb_bridge_peripherals.Upgrades.Update.{
  post_upgrade_init_sig, impl_of, proxy_of, facets_call, upgrade_tx,
}

-- A call that puts the queued logic contract behind the contract's proxy, or makes it the rollup's facet.
abbrev pub Sets : ContractName → CurrentDeployment → QueuedUpdate → Call → Type 0
Sets n d q (upgrade_to proxy impl) = (proxy ≡ d.proxy_address) × (impl ≡ q.address)
Sets n d q (upgrade_beacon rollup proxy impl) = (proxy ≡ d.proxy_address) × (impl ≡ q.address)
Sets n d q (set_facets rollup admin user) =
    ((is_rollup_user_facet n ≡ true) × (user ≡ q.address))
    ⊎ ((is_rollup_admin_facet n ≡ true) × (admin ≡ q.address))
Sets n d q (upgrade_and_call admin proxy impl calldata) =
    (proxy ≡ d.proxy_address) × (impl ≡ q.address)
Sets n d q (upgrade admin proxy impl) = (proxy ≡ d.proxy_address) × (impl ≡ q.address)
Sets n d q (change_proxy_admin admin proxy new_admin) = ⊥
Sets n d q (transfer_ownership beacon owner) = ⊥

some_lem : {A : Type 0} {a b : A} → some a ≡ some b → a ≡ b
some_lem h = cc

module _ (n : ContractName) (d : CurrentDeployment) (q : QueuedUpdate) where
  known : (c : Call) {call : Call} → Sets n d q c → some c ≡ some call → Sets n d q call
  known c h e = subst (Sets n d q) (some_lem e) h

  rollup-Sets :
      (rollup : Option Text) {call : Call}
      → elim rollup as (λ _. Option Call) [
        | none ↦ none
        | some r ↦ some (upgrade_beacon r d.proxy_address q.address)
      ]
        ≡ some call
      → Sets n d q call
  rollup-Sets none h = cc
  rollup-Sets (some r) h = known (upgrade_beacon r d.proxy_address q.address) (refl, refl) h

  facets-Sets :
      (user_facet admin_facet : Bool) (user admin rollup : Option Text) {call : Call}
      → is_rollup_user_facet n ≡ user_facet
      → is_rollup_admin_facet n ≡ admin_facet
      → (admin_facet || user_facet) ≡ true
      → elim (if user_facet then some q.address else user) as (λ _. Option Call) [
        | none ↦ none
        | some u ↦ elim (if admin_facet then some q.address else admin) as (λ _. Option Call) [
          | none ↦ none
          | some a ↦ elim rollup as (λ _. Option Call) [
            | none ↦ none
            | some r ↦ some (set_facets r a u)
          ]
        ]
      ]
        ≡ some call
      → Sets n d q call
  facets-Sets false false user admin rollup e f c h = cc
  facets-Sets true true user admin none e f c h = cc
  facets-Sets true true user admin (some r) e f c h =
      known (set_facets r q.address q.address) (inl (e, refl)) h
  facets-Sets true false user none rollup e f c h = cc
  facets-Sets true false user (some a) none e f c h = cc
  facets-Sets true false user (some a) (some r) e f c h =
      known (set_facets r a q.address) (inl (e, refl)) h
  facets-Sets false true none admin rollup e f c h = cc
  facets-Sets false true (some u) admin none e f c h = cc
  facets-Sets false true (some u) admin (some r) e f c h =
      known (set_facets r q.address u) (inr (f, refl)) h

  pub upgrade_tx-Sets :
      (tmp : CurrentDeployments) {call : Call} → upgrade_tx tmp n q d ≡ some call → Sets n d q call
  unfolding upgrade_tx facets_call
  upgrade_tx-Sets tmp {call} h =
      at (is_beacon_owned_by_eoa n) (is_beacon_owned_by_rollup n)
        (is_rollup_admin_facet n || is_rollup_user_facet n) refl (has_post_init_hook n) h
    where
      at :
          (eoa rollup facet : Bool)
          → (is_rollup_admin_facet n || is_rollup_user_facet n) ≡ facet
          → (hook : Bool)
          → (if eoa
              then some (upgrade_to d.proxy_address q.address)
              else if rollup
              then elim (proxy_of tmp ContractName.rollup) as (λ _. Option Call) [
                | none ↦ none
                | some r ↦ some (upgrade_beacon r d.proxy_address q.address)
              ]
              else if facet
              then facets_call tmp n q
              else if hook
              then some (
                  upgrade_and_call tmp.proxy_admin_address d.proxy_address q.address
                    post_upgrade_init_sig)
              else some (upgrade tmp.proxy_admin_address d.proxy_address q.address))
            ≡ some call
          → Sets n d q call
      at true rollup facet e hook k = known (upgrade_to d.proxy_address q.address) (refl, refl) k
      at false true facet e hook k = rollup-Sets (proxy_of tmp ContractName.rollup) k
      at false false true e hook k =
          facets-Sets (is_rollup_user_facet n) (is_rollup_admin_facet n)
            (impl_of tmp ContractName.rollup_user_facet)
            (impl_of tmp ContractName.rollup_admin_facet) (proxy_of tmp ContractName.rollup) refl
            refl e k
      at false false false e true k =
          known
            (upgrade_and_call tmp.proxy_admin_address d.proxy_address q.address
              post_upgrade_init_sig)
            (refl, refl) k
      at false false false e false k =
          known (upgrade tmp.proxy_admin_address d.proxy_address q.address) (refl, refl) k
