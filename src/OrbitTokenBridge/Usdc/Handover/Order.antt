-- ===== src/OrbitTokenBridge/Usdc/Handover/Order.antt =====
-- The transactions of the handover in their order, and what the test has seen at its end.
use arb_bridge_peripherals.Base.{
  ℕ, ◌≡◌, ap, ◌∙◌, some, not, List, [], ◌∷◌, ◌++◌, Text, ◌===◌, ◌==◌, ===_sound, ==_sound,
  Post-pure, Post-weaken,
}
use arb_bridge_peripherals.Chain.Types.{parent, child, Getter, NumberGetter, Calldata, Event}
use arb_bridge_peripherals.Chain.{Network, World}
use arb_bridge_peripherals.OrbitTokenBridge.{Setup, ether}
use arb_bridge_peripherals.OrbitTokenBridge.Steps.{
  Passes, sent_by, seen, stepped, stepped_then, expected, expected_last, called_then,
  random_address-log, log_then,
}
use arb_bridge_peripherals.OrbitTokenBridge.Usdc.{UsdcContracts}
use arb_bridge_peripherals.OrbitTokenBridge.Usdc.Handover.{
  pause_gateways, prepare_burn, transfer_roles, burn_locked_usdc, hand_over,
}

module _ (N : Network) (s : Setup) (c : UsdcContracts) where
  abbrev pub pause_events : List Event
  pause_events =
      sent_by parent s.deployer c.l1_gateway 0 Calldata.pause_deposits
      ∷ sent_by child s.deployer c.l2_gateway 0 Calldata.pause_withdrawals
      ∷ []

  abbrev pub burn_preparation : ℕ → Text → List Event
  burn_preparation supply circle =
      sent_by parent s.deployer c.l1_gateway 0 (Calldata.set_burn_amount supply)
      ∷ sent_by parent s.deployer circle (ether 1) Calldata.no_calldata
      ∷ sent_by parent s.deployer c.l1_gateway 0 (Calldata.set_burner circle)
      ∷ sent_by parent s.deployer c.l1_usdc 0 (Calldata.configure_minter_allowance c.l1_gateway 0)
      ∷ []

  abbrev pub role_events : Text → List Event
  role_events circle =
      sent_by child s.deployer c.l2_usdc 0 (Calldata.remove_minter c.l2_gateway)
      ∷ sent_by child s.deployer circle (ether 1) Calldata.no_calldata
      ∷ sent_by child s.deployer c.l2_gateway 0 (Calldata.set_usdc_ownership_transferrer circle)
      ∷ sent_by child s.deployer c.l2_usdc 0 (Calldata.transfer_ownership c.l2_gateway)
      ∷ sent_by child s.deployer c.proxy_admin_l2 0
          (Calldata.change_proxy_admin c.l2_usdc c.l2_gateway)
      ∷ sent_by child circle c.l2_gateway 0 (Calldata.transfer_usdc_roles circle)
      ∷ []

  abbrev pub burn_event : Text → Event
  burn_event circle = sent_by parent circle c.l1_gateway 0 Calldata.burn_locked_usdc

  pause_gateways-log :
      (w : World N) → Passes N (λ _ t. t.log ≡ w.log ++ pause_events) (pause_gateways N s c) w
  unfolding pause_gateways
  pause_gateways-log w =
      called_then N parent s.deployer c.l1_gateway 0 Calldata.pause_deposits _ w λ t₁ e₁.
        seen N _ _ t₁ λ l1_paused _. expected N l1_paused _ t₁ λ _.
          called_then N child s.deployer c.l2_gateway 0 Calldata.pause_withdrawals _ t₁ λ t₂ e₂.
            seen N _ _ t₂ λ l2_paused _.
              expected_last N {Q = λ _ t. t.log ≡ w.log ++ pause_events} l2_paused t₂
                λ _. log_then N w t₁ t₂ _ _ e₁ e₂

  prepare_burn-log :
      (w : World N)
      → Passes N
          (λ circle t.
            (supply : ℕ) × (N.read_number child c.l2_usdc NumberGetter.total_supply w.chain
              ≡ some supply)
            × (t.log ≡ w.log ++ burn_preparation supply circle))
          (prepare_burn N s c)
          w
  unfolding prepare_burn
  prepare_burn-log w = seen N _ _ w λ supply e.
      called_then N parent s.deployer c.l1_gateway 0 (Calldata.set_burn_amount supply) _ w λ t₁ e₁.
        seen N _ _ t₁ λ burn_amount _. expected N (burn_amount == supply) _ t₁ λ _.
          stepped N _ _ t₁ (random_address-log N t₁) λ circle t₂ e₂.
            called_then N parent s.deployer circle (ether 1) Calldata.no_calldata _ t₂ λ t₃ e₃.
              called_then N parent s.deployer c.l1_gateway 0 (Calldata.set_burner circle) _ t₃
                λ t₄ e₄. seen N _ _ t₄ λ burner _. expected N (burner === circle) _ t₄ λ _.
                  called_then N parent s.deployer c.l1_usdc 0
                    (Calldata.configure_minter_allowance c.l1_gateway 0) _ t₄
                    λ t₅ e₅. Post-pure circle t₅ (
                      supply,
                      e,
                      log_then N w t₄ t₅ _ _
                          (log_then N w t₃ t₄ _ _ (log_then N w t₂ t₃ _ _ (e₂ ∙ e₁) e₃) e₄) e₅,
                    )

  -- What the test has seen of the token on the child chain.
  pub record Owned (circle : Text) (x : N.State) : Type 0 where
    pub owner : N.read child c.l2_usdc Getter.owner x ≡ some circle
    pub admin : N.read child c.l2_usdc Getter.admin x ≡ some circle

  transfer_roles-log :
      (w : World N)
      → Passes N
          (λ _ t. (circle : Text) × Owned circle t.chain × (t.log ≡ w.log ++ role_events circle))
          (transfer_roles N s c)
          w
  unfolding transfer_roles
  transfer_roles-log w =
      called_then N child s.deployer c.l2_usdc 0 (Calldata.remove_minter c.l2_gateway) _ w λ t₁ e₁.
        seen N _ _ t₁ λ minter _. expected N (not minter) _ t₁ λ _.
          stepped N _ _ t₁ (random_address-log N t₁) λ circle t₂ e₂.
            called_then N child s.deployer circle (ether 1) Calldata.no_calldata _ t₂ λ t₃ e₃.
              called_then N child s.deployer c.l2_gateway 0
                (Calldata.set_usdc_ownership_transferrer circle) _ t₃
                λ t₄ e₄. seen N _ _ t₄ λ transferrer _.
                  expected N (transferrer === circle) _ t₄ λ _.
                    called_then N child s.deployer c.l2_usdc 0
                      (Calldata.transfer_ownership c.l2_gateway) _ t₄
                      λ t₅ e₅. seen N _ _ t₅ λ owner _.
                        expected N (owner === c.l2_gateway) _ t₅ λ _.
                          called_then N child s.deployer c.proxy_admin_l2 0
                            (Calldata.change_proxy_admin c.l2_usdc c.l2_gateway) _ t₅
                            λ t₆ e₆. seen N _ _ t₆ λ admin _.
                              expected N (admin === c.l2_gateway) _ t₆ λ _.
                                called_then N child circle c.l2_gateway 0
                                  (Calldata.transfer_usdc_roles circle) _ t₆
                                  λ t₇ e₇. seen N _ _ t₇ λ next_owner h₁.
                                    expected N (next_owner === circle) _ t₇ λ same₁.
                                      seen N _ _ t₇ λ next_admin h₂.
                                        expected_last N
                                          {Q = λ _ t.
                                            (circle : Text) × Owned circle t.chain
                                            × (t.log ≡ w.log ++ role_events circle)}
                                          (next_admin === circle) t₇
                                          λ same₂. (
                                            circle,
                                            record {
                                              owner =
                                                  h₁ ∙ ap some (===_sound next_owner circle same₁);
                                              admin =
                                                  h₂ ∙ ap some (===_sound next_admin circle same₂);
                                            },
                                            log_then N w t₆ t₇ _ _
                                                (log_then N w t₅ t₆ _ _
                                                  (log_then N w t₄ t₅ _ _
                                                    (log_then N w t₃ t₄ _ _
                                                      (log_then N w t₂ t₃ _ _ (e₂ ∙ e₁) e₃) e₄)
                                                    e₅)
                                                  e₆)
                                                e₇,
                                          )

  burn_locked_usdc-log :
      (amount : ℕ) (circle : Text) (w : World N)
      → Passes N
          (λ _ t.
            (t.log ≡ w.log ++ burn_event circle ∷ [])
            × (N.read_number parent c.l1_usdc (NumberGetter.balance_of c.l1_gateway) t.chain
                ≡ some 0)
            × (N.read_number child c.l2_usdc (NumberGetter.balance_of s.user) t.chain
                ≡ some amount))
          (burn_locked_usdc N s c amount circle)
          w
  unfolding burn_locked_usdc
  burn_locked_usdc-log amount circle w =
      called_then N parent circle c.l1_gateway 0 Calldata.burn_locked_usdc _ w λ t₁ e₁.
        seen N _ _ t₁ λ locked h₁. expected N (locked == 0) _ t₁ λ same₁.
          seen N _ _ t₁ λ received h₂.
            expected_last N
              {Q = λ _ t.
                (t.log ≡ w.log ++ burn_event circle ∷ [])
                × (N.read_number parent c.l1_usdc (NumberGetter.balance_of c.l1_gateway) t.chain
                    ≡ some 0)
                × (N.read_number child c.l2_usdc (NumberGetter.balance_of s.user) t.chain
                    ≡ some amount)}
              (received == amount) t₁
              λ same₂. (
                e₁,
                h₁ ∙ ap some (==_sound locked 0 same₁),
                h₂ ∙ ap some (==_sound received amount same₂),
              )

  -- A handover from `w` to `t`: the gateways are paused in `paused`, and everything but the burning has
  -- been done in `ready`.
  pub record HandedOver (amount : ℕ) (w t : World N) : Type 0 where
    pub paused : World N
    pub ready : World N
    pub supply : ℕ
    pub burner : Text
    pub circle : Text
    pub paused_log : paused.log ≡ w.log ++ pause_events
    pub is_supply :
        N.read_number child c.l2_usdc NumberGetter.total_supply paused.chain ≡ some supply
    pub ready_log : ready.log ≡ paused.log ++ (burn_preparation supply burner ++ role_events circle)
    pub owned : Owned circle ready.chain
    pub burnt_log : t.log ≡ ready.log ++ burn_event burner ∷ []
    pub unlocked :
        N.read_number parent c.l1_usdc (NumberGetter.balance_of c.l1_gateway) t.chain ≡ some 0
    pub kept : N.read_number child c.l2_usdc (NumberGetter.balance_of s.user) t.chain ≡ some amount

  -- If the handover passes its expectations, its transactions are these, in this order: both gateways
  -- are paused; the amount to burn is set to the supply that the child chain's USDC has then; the burner
  -- is set; the gateway of the child chain loses the right to mint; Circle becomes owner and admin
  -- of the child chain's USDC; and only then, as the last transaction, the burner burns the locked
  -- USDC. No USDC is locked after it, and the user has the deposit on the child chain.
  pub hand_over-HandedOver :
      (amount : ℕ) (w : World N)
      → Passes N (λ _ t. HandedOver amount w t) (hand_over N s c amount) w
  unfolding hand_over
  hand_over-HandedOver amount w = stepped_then N _ _ w (pause_gateways-log w) λ _ t₁ e₁.
      stepped N _ _ t₁ (prepare_burn-log t₁) λ burner t₂ (supply, is_supply, e₂).
        stepped_then N _ _ t₂ (transfer_roles-log t₂) λ _ t₃ (circle, owned, e₃).
          Post-weaken (burn_locked_usdc N s c amount burner) t₃
            (λ _ t (e₄, unlocked, kept). record {
              paused = t₁;
              ready = t₃;
              supply = supply;
              burner = burner;
              circle = circle;
              paused_log = e₁;
              is_supply = is_supply;
              ready_log = log_then N t₁ t₂ t₃ _ _ e₂ e₃;
              owned = owned;
              burnt_log = e₄;
              unlocked = unlocked;
              kept = kept;
            })
            (λ _ _. tt) (burn_locked_usdc-log amount burner t₃)
