-- ===== src/Upgrades/Verify/Seen.antt =====
-- What each test of a verification has read, if it comes out true.
use arb_bridge_peripherals.Base.{
  ◌≡◌, refl, sym, subst, ◌∙◌, Bool, true, false, ◌&&◌, ◌||◌, none, some, [], ◌∷◌, Text, ok,
  same_address, bind-eq-ok, ask-eq-ok, pure, pure-value, pure-state, ◌>>=◌, All, arith,
  if◌then◌else◌,
}
use arb_bridge_peripherals.Base.Dict.{Dict}
use arb_bridge_peripherals.Upgrades.Names.{
  ContractName, is_beacon, is_beacon_owned_by_rollup, is_rollup_user_facet, is_rollup_admin_facet,
}
use arb_bridge_peripherals.Upgrades.Node.{
  Hre, World, read, Read, storage_at, admin_slot, CurrentDeployment, CurrentDeployments,
}
use arb_bridge_peripherals.Upgrades.Verify.{
  cut_to_address, deployment_of, tracked, get_admin_from_proxy_storage, rollup_proxy, verify_beacon,
  verify_facet, verify_proxy, verify_contract, verify_each,
}
use arb_bridge_peripherals.Upgrades.Verify.Matches.{
  BeaconMatches, FacetMatches, ProxyMatches, Matches,
}

module _ (H : Hre) (c : CurrentDeployments) (owner : Text) where
  both : (x y : Bool) {b : Bool} → (x && y) ≡ b → b ≡ true → (x ≡ true) × (y ≡ true)
  both x y h e = ground arith

  admin_lem :
      (proxy : Text) (w : World H) {a : Text} {t : World H}
      → get_admin_from_proxy_storage H proxy w ≡ (ok a, t)
      → (raw : Text) × (H.read (storage_at proxy admin_slot) w.chain ≡ some raw)
        × (cut_to_address raw ≡ a)
        × (w ≡ t)
  unfolding get_admin_from_proxy_storage
  admin_lem proxy w h =
      let (raw, u, e, r) = bind-eq-ok _ _ w h in
      let (answer, same) = ask-eq-ok _ w e in
      (raw, answer, pure-value _ u r, same ∙ pure-state _ u r)

  rollup_lem :
      (w : World H) {a : Text} {t : World H}
      → rollup_proxy H c w ≡ (ok a, t)
      → (r : CurrentDeployment) × (deployment_of c ContractName.rollup ≡ some r)
        × (r.proxy_address ≡ a)
        × (w ≡ t)
  unfolding rollup_proxy
  rollup_lem w h =
      let (r, u, e, k) = bind-eq-ok _ _ w h in
      let (entry, same) = ask-eq-ok _ w e in (r, entry, pure-value _ u k, same ∙ pure-state _ u k)

  beacon_lem :
      (by_rollup : Bool) (d : CurrentDeployment) (w : World H) {b : Bool} {t : World H}
      → (do
        implementation ← read H (Read.implementation d.proxy_address)
        beacon_owner ← read H (Read.owner d.proxy_address)
        expected ← (if by_rollup then rollup_proxy H c else pure owner)
        pure (same_address implementation d.impl_address && same_address beacon_owner expected))
          w
        ≡ (ok b, t)
      → (w ≡ t) × (b ≡ true → BeaconMatches H c owner w.chain by_rollup d)
  beacon_lem true d w {b} {t} h =
      let (i, w₁, e₁, h₁) = bind-eq-ok (read H (Read.implementation d.proxy_address)) _ w h in
      let (o, w₂, e₂, h₂) = bind-eq-ok (read H (Read.owner d.proxy_address)) _ w₁ h₁ in
      let (x, w₃, e₃, h₃) = bind-eq-ok (rollup_proxy H c) _ w₂ h₂ in
      let (a₁, s₁) = ask-eq-ok _ w e₁ in
      let (a₂, s₂) = ask-eq-ok _ w₁ e₂ in
      let (r, entry, same, s₃) = rollup_lem w₂ e₃ in
      let value = pure-value _ w₃ h₃ in
      (
        s₁ ∙ s₂ ∙ s₃ ∙ pure-state _ w₃ h₃,
        λ q. (
          (i, a₁, (both _ _ value q).0),
          (r, entry, (o, cc, subst (λ y. same_address o y ≡ true) (sym same) (both _ _ value q).1)),
        ),
      )
  beacon_lem false d w {b} {t} h =
      let (i, w₁, e₁, h₁) = bind-eq-ok (read H (Read.implementation d.proxy_address)) _ w h in
      let (o, w₂, e₂, h₂) = bind-eq-ok (read H (Read.owner d.proxy_address)) _ w₁ h₁ in
      let (x, w₃, e₃, h₃) = bind-eq-ok (pure owner) _ w₂ h₂ in
      let (a₁, s₁) = ask-eq-ok _ w e₁ in
      let (a₂, s₂) = ask-eq-ok _ w₁ e₂ in
      let value = pure-value _ w₃ h₃ in
      (
        s₁ ∙ s₂ ∙ pure-state _ w₂ e₃ ∙ pure-state _ w₃ h₃,
        λ q. (
          (i, a₁, (both _ _ value q).0),
          (
            o,
            cc,
            subst (λ y. same_address o y ≡ true) (sym (pure-value _ w₂ e₃)) (both _ _ value q).1,
          ),
        ),
      )

  facet_lem :
      (user : Bool) (d : CurrentDeployment) (w : World H) {b : Bool} {t : World H}
      → (do
        rollup ← rollup_proxy H c
        facet ← read H (if user then Read.user_facet rollup else Read.admin_facet rollup)
        pure (same_address facet d.impl_address))
          w
        ≡ (ok b, t)
      → (w ≡ t) × (b ≡ true → FacetMatches H c owner w.chain user d)
  facet_lem user d w {b} {t} h =
      let (x, w₁, e₁, h₁) = bind-eq-ok (rollup_proxy H c) _ w h in
      let (f, w₂, e₂, h₂) = bind-eq-ok _ _ w₁ h₁ in
      let (r, entry, same, s₁) = rollup_lem w e₁ in
      let (a₂, s₂) = ask-eq-ok _ w₁ e₂ in
      (
        s₁ ∙ s₂ ∙ pure-state _ w₂ h₂,
        λ q. (
          r,
          entry,
          (
            f,
            subst
                (λ (y : World H).
                  H.read
                    (if user
                      then Read.user_facet r.proxy_address
                      else Read.admin_facet r.proxy_address)
                    y.chain
                  ≡ some f)
                (sym s₁)
                (subst
                  (λ y.
                    H.read (if user then Read.user_facet y else Read.admin_facet y) w₁.chain
                    ≡ some f)
                  (sym same) a₂),
            pure-value _ w₂ h₂ ∙ q,
          ),
        ),
      )

  proxy_lem :
      (d : CurrentDeployment) (w : World H) {b : Bool} {t : World H}
      → verify_proxy H c d w ≡ (ok b, t)
      → (w ≡ t) × (b ≡ true → ProxyMatches H c owner w.chain d)
  unfolding verify_proxy
  proxy_lem d w {b} {t} h =
      let (x, w₁, e₁, h₁) = bind-eq-ok (get_admin_from_proxy_storage H d.proxy_address) _ w h in
      let (raw, w₂, e₂, h₂) = bind-eq-ok _ _ w₁ h₁ in
      let (word, w₃, e₃, h₃) = bind-eq-ok _ _ w₂ h₂ in
      let (a, answer, same, s₁) = admin_lem d.proxy_address w e₁ in
      let (a₂, s₂) = ask-eq-ok _ w₁ e₂ in
      let (a₃, s₃) = ask-eq-ok _ w₂ e₃ in
      let value = pure-value _ w₃ h₃ in
      (
        s₁ ∙ s₂ ∙ s₃ ∙ pure-state _ w₃ h₃,
        λ q. (
          (
            a,
            answer,
            subst (λ y. same_address y c.proxy_admin_address ≡ true) (sym same)
                (both _ _ value q).0,
          ),
          (raw, word, cc, a₃, (both _ _ value q).1),
        ),
      )

  contract_lem :
      (n : ContractName) (d : CurrentDeployment) (w : World H) {b : Bool} {t : World H}
      → verify_contract H c owner n d w ≡ (ok b, t)
      → (w ≡ t) × (b ≡ true → Matches H c owner w.chain n d)
  unfolding verify_contract verify_beacon verify_facet
  contract_lem n d w {b} {t} h =
      at (is_beacon n) (is_rollup_admin_facet n || is_rollup_user_facet n) h
    where
      at :
          (x y : Bool)
          → (if x
                then verify_beacon H c owner n d
                else if y
                then verify_facet H c n d
                else verify_proxy H c d)
              w
            ≡ (ok b, t)
          → (w ≡ t)
            × (b ≡ true → elim x as (λ _. Type 0) [
              | true ↦ BeaconMatches H c owner w.chain (is_beacon_owned_by_rollup n) d
              | false ↦ elim y as (λ _. Type 0) [
                | true ↦ FacetMatches H c owner w.chain (is_rollup_user_facet n) d
                | false ↦ ProxyMatches H c owner w.chain d
              ]
            ])
      at true y g = beacon_lem (is_beacon_owned_by_rollup n) d w g
      at false true g = facet_lem (is_rollup_user_facet n) d w g
      at false false g = proxy_lem d w g

  pub each_lem :
      (contracts : Dict ContractName CurrentDeployment) (success : Bool) (w : World H) {b : Bool}
      {t : World H}
      → verify_each H c none owner contracts success w ≡ (ok b, t)
      → (w ≡ t)
        × (b ≡ true
            → (success ≡ true)
              × All
                  (λ (x : ContractName × CurrentDeployment). Matches H c owner w.chain x.0 x.1)
                  contracts)
  unfolding verify_each tracked
  each_lem [] success w h = (pure-state _ w h, λ q. (pure-value _ w h ∙ q, tt))
  each_lem ((n, d) ∷ rest) success w {b} {t} h =
      let (good, u, e, r) = bind-eq-ok (verify_contract H c owner n d) _ w h in
      let (same, seen) = contract_lem n d w e in
      let (same', later) = each_lem rest (success && good) u r in
      (
        same ∙ same',
        λ q.
            (let (goods, others) = later q in
              let (before, now) = both success good refl goods in
              (
                before,
                (
                  seen now,
                  subst
                      (λ (y : World H).
                        All
                          (λ (x : ContractName × CurrentDeployment).
                            Matches H c owner y.chain x.0 x.1)
                          rest)
                      (sym same) others,
                ),
              )),
      )
