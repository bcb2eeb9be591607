-- ===== src/TokenBridge/Register/Counterparts.antt =====
-- What `registerGateway` has found out about the routers, and what it sends.
use arb_bridge_peripherals.Base.{
  ℕ, ◌+◌, ◌*◌, refl, ◌≡◌, sym, ap, subst, ◌∙◌, Bool, true, false, not, some, List, [], ◌∷◌, ◌++◌,
  Text, ◌===◌, ===_sound, append_cong, ok, bind-eq-ok, then-eq-ok, throw_if-eq-ok, ask-eq-ok, pure,
  exit, arith, if◌then◌else◌, effects,
}
use arb_bridge_peripherals.Chain.Types.{
  parent, child, Getter, GasParams, Calldata, Tx, sent, Status,
}
use arb_bridge_peripherals.Chain.{Network, World, send, wait_for_status}
use arb_bridge_peripherals.Chain.Logs.{send-log}
use arb_bridge_peripherals.TokenBridge.Create.{is_redeemed}
use arb_bridge_peripherals.TokenBridge.Register.{build_call, check_routers, register_gateways}

not-false : (b : Bool) → not b ≡ false → b ≡ true
not-false b h = ground arith

module _ (N : Network) where
  routers_lem :
      (router : Text) (w : World N) {t : World N}
      → check_routers N router w ≡ (ok tt, t)
      → (l2_router : Text) × (N.read parent router Getter.counterpart_gateway w.chain
          ≡ some l2_router)
        × (N.read child l2_router Getter.counterpart_gateway w.chain ≡ some router)
        × (w ≡ t)
  unfolding check_routers
  routers_lem router w h =
      let (l2, w₁, e₁, h₁) = bind-eq-ok _ _ w h in
      let (code, w₂, e₂, h₂) = bind-eq-ok _ _ w₁ h₁ in
      let (_, w₃, e₃, h₃) = then-eq-ok _ _ w₂ h₂ in
      let (l1, w₄, e₄, h₄) = bind-eq-ok _ _ w₃ h₃ in
      let (a₁, s₁) = ask-eq-ok _ w e₁ in
      let (_, s₂) = ask-eq-ok _ w₁ e₂ in
      let s₃ = (throw_if-eq-ok _ _ w₂ e₃).1 in
      let (a₄, s₄) = ask-eq-ok _ w₃ e₄ in
      let (same, s₅) = throw_if-eq-ok _ _ w₄ h₄ in
      (
        l2,
        a₁,
        subst (λ (y : World N). N.read child l2 Getter.counterpart_gateway y.chain ≡ some router)
            (sym (s₁ ∙ s₂ ∙ s₃))
            (a₄ ∙ ap some (===_sound l1 router (not-false (l1 === router) same))),
        s₁ ∙ s₂ ∙ s₃ ∙ s₄ ∙ s₅,
      )

  redeemed_end :
      (b : Bool) (w : World N) {t : World N}
      → (if b then pure tt else exit) w ≡ (ok tt, t)
      → (b ≡ true) × (w ≡ t)
  unfolding effects
  redeemed_end b w h = ground arith

  waited :
      (h : Text) (i : ℕ) (w : World N) {s : Status} {t : World N}
      → wait_for_status N h i w ≡ (ok s, t)
      → t.log ≡ w.log
  unfolding wait_for_status
  waited h i w e = ground arith

  -- The executor's call of `setGateways`, with what the ticket costs as its value.
  abbrev pub set_gateways_tx : Text → Text → List Text → List Text → GasParams → Tx
  set_gateways_tx upgrade_executor router tokens gateways p = record {
    to = upgrade_executor;
    value = p.gas_limit * p.max_fee_per_gas + p.max_submission_cost;
    calldata =
        Calldata.execute_call router (
          Calldata.set_gateways tokens gateways p.gas_limit p.max_fee_per_gas
            p.max_submission_cost);
  }

  is_redeemed-eq-true : (s : Status) → is_redeemed s ≡ true → s ≡ Status.redeemed
  unfolding is_redeemed
  is_redeemed-eq-true Status.redeemed h = refl
  is_redeemed-eq-true Status.not_yet_created h = cc
  is_redeemed-eq-true Status.creation_failed h = cc
  is_redeemed-eq-true Status.funds_deposited_on_l2 h = cc
  is_redeemed-eq-true Status.expired h = cc

  -- A registration that ends well has found the two routers to be each other's counterpart, has sent one
  -- transaction, the executor's call of `setGateways`, with the gas parameters of the estimate and their
  -- fee as its value, and has then seen the first ticket of that transaction redeemed.
  pub register_gateways-Counterparts :
      (executor upgrade_executor router : Text) (tokens gateways : List Text) (w : World N)
      {t : World N}
      → register_gateways N executor upgrade_executor router tokens gateways w ≡ (ok tt, t)
      → (l2_router : Text) × (p : GasParams) × (N.read parent router Getter.counterpart_gateway
            w.chain
          ≡ some l2_router)
        × (N.read child l2_router Getter.counterpart_gateway w.chain ≡ some router)
        × (N.populate_params (set_gateways_tx upgrade_executor router tokens gateways) w.chain
            ≡ some p)
        × (t.log
            ≡ w.log
              ++ (sent parent executor (set_gateways_tx upgrade_executor router tokens gateways p)
                  ∷ []))
        × (tx : Text) × (u : World N) × (send N parent executor
              (set_gateways_tx upgrade_executor router tokens gateways p)
              w
            ≡ (ok tx, u))
        × (wait_for_status N tx 0 u ≡ (ok Status.redeemed, t))
  unfolding register_gateways build_call
  register_gateways-Counterparts executor upgrade_executor router tokens gateways w {t} h =
      let (_, w₁, e₁, h₁) = then-eq-ok (check_routers N router) _ w h in
      let (p, w₂, e₂, h₂) = bind-eq-ok _ _ w₁ h₁ in
      let (tx, w₃, e₃, h₃) = bind-eq-ok _ _ w₂ h₂ in
      let (s, w₄, e₄, h₄) = bind-eq-ok _ _ w₃ h₃ in
      let (l2, a, b, s₁) = routers_lem router w e₁ in
      let (params, s₂) = ask-eq-ok _ w₁ e₂ in
      let (redeemed, s₅) = redeemed_end (is_redeemed s) w₄ h₄ in
      (
        l2,
        p,
        a,
        b,
        subst
            (λ (y : World N).
              N.populate_params (set_gateways_tx upgrade_executor router tokens gateways) y.chain
              ≡ some p)
            (sym s₁) params,
        ap (λ (y : World N). y.log) (sym s₅)
            ∙ waited tx 0 w₃ e₄
            ∙ send-log N parent executor _ w₂ e₃
            ∙ append_cong _ (ap (λ (y : World N). y.log) (sym (s₁ ∙ s₂))),
        tx,
        w₃,
        subst
            (λ y.
              send N parent executor (set_gateways_tx upgrade_executor router tokens gateways p) y
              ≡ (ok tx, w₃))
            (sym (s₁ ∙ s₂)) e₃,
        subst (λ y. wait_for_status N tx 0 w₃ ≡ (ok y, t)) (is_redeemed-eq-true s redeemed)
            (subst (λ y. wait_for_status N tx 0 w₃ ≡ (ok s, y)) s₅ e₄),
      )
