-- ===== src/OrbitTokenBridge/Deposit/Traced.antt =====
-- The deposits as a whole: what they send, and what they have moved.
use arb_bridge_peripherals.Base.{
  ℕ, ◌*◌, ◌≡◌, refl, sym, ap, ◌∙◌, subst, Option, none, some, List, [], ◌∷◌, ◌++◌, Text, ◌>>=◌,
  ◌===◌, Post-pure, Post-ask, Post-weaken, append_assoc, append-nil,
}
use arb_bridge_peripherals.Chain.Types.{parent, Calldata, Event, Retryable}
use arb_bridge_peripherals.Chain.{Network, World, Run, estimate_all}
use arb_bridge_peripherals.OrbitTokenBridge.{Setup, expect_l2_msg}
use arb_bridge_peripherals.OrbitTokenBridge.Deposit.{
  Balances, snapshot, submission_cost, value_of_fee, encoded_fee, approve_fee, outbound_transfer,
  expect_deposited, deposit_token,
}
use arb_bridge_peripherals.OrbitTokenBridge.Deposit.Moved.{
  Holds, Moved, snapshot-Holds, expect_deposited-Moved,
}
use arb_bridge_peripherals.OrbitTokenBridge.Custom.{deposit_custom_token}
use arb_bridge_peripherals.OrbitTokenBridge.Steps.{
  Passes, sent_by, seen, stepped, stepped_then, expected, called, called_then, amount_seen,
  expect_l2_msg-log,
}

-- The approval of a fee that is paid in a token.
abbrev pub fee_events : Option Text → Text → Text → ℕ → List Event
fee_events none user gateway fee = []
fee_events (some native) user gateway fee =
    sent_by parent user native 0 (Calldata.approve gateway fee) ∷ []

module _ (N : Network) (s : Setup) where
  -- The router's transaction of a deposit.
  abbrev pub transfer_event : Text → ℕ → ℕ → ℕ → ℕ → ℕ → Event
  transfer_event token amount gas_limit max_fee_per_gas cost fee =
      sent_by parent s.user s.l2_network.token_bridge.l1_gateway_router
        (value_of_fee s.native_token fee)
        (Calldata.outbound_transfer_custom_refund token s.user s.user amount gas_limit
          max_fee_per_gas (submission_cost s.native_token cost) (encoded_fee s.native_token fee))

  -- From `w` to `t`, the user has approved the amount and the fee for the gateway and has sent the
  -- transfer, and the balances have moved by the amount and by the fee.
  pub record Deposited (token gateway : Text) (amount cost : ℕ) (w t : World N) : Type 0 where
    pub gas_limit : ℕ
    pub max_fee_per_gas : ℕ
    pub fee : ℕ
    pub before : Balances
    pub after : Balances
    pub events :
        t.log
        ≡ w.log
          ++ (sent_by parent s.user token 0 (Calldata.approve gateway amount)
                ∷ fee_events s.native_token s.user gateway fee
              ++ transfer_event token amount gas_limit max_fee_per_gas cost fee ∷ [])
    pub held_before : Holds N s token gateway w.chain before
    pub held_after : Holds N s token gateway t.chain after
    pub moved : Moved N s token amount fee before after t.chain

  approve_fee-log :
      (native : Option Text) (gateway : Text) (fee : ℕ) (w : World N)
      → Passes N
          (λ _ t. t.log ≡ w.log ++ fee_events native s.user gateway fee)
          (approve_fee N s native gateway fee)
          w
  unfolding approve_fee
  approve_fee-log none gateway fee w = Post-pure tt w (sym (append-nil w.log))
  approve_fee-log (some native) gateway fee w =
      called_then N parent s.user native 0 (Calldata.approve gateway fee) _ w
        λ t e. Post-pure tt t e

  outbound_transfer-log :
      (token : Text) (amount gas_limit max_fee_per_gas cost fee : ℕ) (w : World N)
      → Passes N
          (λ _ t.
            t.log ≡ w.log ++ transfer_event token amount gas_limit max_fee_per_gas cost fee ∷ [])
          (outbound_transfer N s token amount gas_limit max_fee_per_gas cost fee)
          w
  unfolding outbound_transfer
  outbound_transfer-log token amount gas_limit max_fee_per_gas cost fee w =
      called N parent s.user s.l2_network.token_bridge.l1_gateway_router _ _ (expect_l2_msg N) w
        λ tx t e.
          Post-weaken (expect_l2_msg N tx) t (λ _ u e'. e' ∙ e) (λ _ _. tt)
            (expect_l2_msg-log N tx t)

  -- The end of both deposits, from the fee on, after the approval of the amount in `u`.
  module _ (token gateway : Text) (amount cost : ℕ) (w : World N) (before : Balances) where
    log_of :
        (gas_limit max_fee_per_gas fee : ℕ) (u v t : World N)
        → u.log ≡ w.log ++ sent_by parent s.user token 0 (Calldata.approve gateway amount) ∷ []
        → v.log ≡ u.log ++ fee_events s.native_token s.user gateway fee
        → t.log ≡ v.log ++ transfer_event token amount gas_limit max_fee_per_gas cost fee ∷ []
        → t.log
          ≡ w.log
            ++ (sent_by parent s.user token 0 (Calldata.approve gateway amount)
                  ∷ fee_events s.native_token s.user gateway fee
                ++ transfer_event token amount gas_limit max_fee_per_gas cost fee ∷ [])
    log_of gas_limit max_fee_per_gas fee u v t p q r =
        r
        ∙ ap (λ x. x ++ transfer_event token amount gas_limit max_fee_per_gas cost fee ∷ [])
            (q ∙ ap (λ x. x ++ fee_events s.native_token s.user gateway fee) p)
        ∙ ap (λ x. x ++ transfer_event token amount gas_limit max_fee_per_gas cost fee ∷ [])
            (append_assoc w.log
              (sent_by parent s.user token 0 (Calldata.approve gateway amount) ∷ [])
              (fee_events s.native_token s.user gateway fee))
        ∙ append_assoc w.log
            (sent_by parent s.user token 0 (Calldata.approve gateway amount)
              ∷ fee_events s.native_token s.user gateway fee)
            (transfer_event token amount gas_limit max_fee_per_gas cost fee ∷ [])

    -- The expectations at the end of a deposit.
    moved_last :
        (gas_limit max_fee_per_gas fee : ℕ) (t : World N)
        → t.log
          ≡ w.log
            ++ (sent_by parent s.user token 0 (Calldata.approve gateway amount)
                  ∷ fee_events s.native_token s.user gateway fee
                ++ transfer_event token amount gas_limit max_fee_per_gas cost fee ∷ [])
        → Holds N s token gateway w.chain before
        → Passes N
            (λ _ u. Deposited token gateway amount cost w u)
            (expect_deposited N s token gateway before amount fee)
            t
    moved_last gas_limit max_fee_per_gas fee t log held =
        Post-weaken (expect_deposited N s token gateway before amount fee) t
          (λ _ u (same, after, held_after, moved). record {
            gas_limit = gas_limit;
            max_fee_per_gas = max_fee_per_gas;
            fee = fee;
            before = before;
            after = after;
            events = ap World.log same ∙ log;
            held_before = held;
            held_after =
                subst (λ x. Holds N s token gateway x after) (sym (ap World.chain same)) held_after;
            moved =
                subst (λ x. Moved N s token amount fee before after x) (sym (ap World.chain same))
                  moved;
          })
          (λ _ _. tt) (expect_deposited-Moved N s token gateway before amount fee t)

  snapshot_seen :
      {B : Type 0} {Q : B → World N → Type 0} (token gateway : Text) (k : Balances → Run N B)
      (w : World N)
      → ((b : Balances) → Holds N s token gateway w.chain b → Passes N Q (k b) w)
      → Passes N Q (snapshot N s token gateway >>= k) w
  snapshot_seen {B} {Q} token gateway k w h =
      stepped N (snapshot N s token gateway) k w (snapshot-Holds N s token gateway w)
        λ b t (same, held). subst (λ x. Passes N Q (k b) x) (sym same) (h b held)

  estimate-log :
      (r : Retryable) (w : World N) → Passes N (λ _ t. t.log ≡ w.log) (estimate_all N r) w
  estimate-log r w =
      seen N (λ t. N.base_fee t.chain) _ w
        λ fee e. Post-ask (λ t. N.estimate_all r fee t.chain) w (λ _ _. refl) tt

  -- If the deposit through the default gateway passes its expectations, it has sent an approval of the
  -- amount, on a chain with a fee token one of the fee, and the transfer with the fee; it has moved the
  -- amount from the user to the gateway and to the user's account on the child chain, and the fee from
  -- the user to the bridge; and a fee in ETH is less than `2 ^ 53`.
  pub deposit_token-Deposited :
      (token : Text) (amount : ℕ) (w : World N)
      → Passes N
          (λ _ t.
            Deposited token s.l2_network.token_bridge.l1_erc20_gateway amount 584000000000 w t)
          (deposit_token N s token amount)
          w
  unfolding deposit_token
  deposit_token-Deposited token amount w = snapshot_seen token gateway _ w λ before held.
      called_then N parent s.user token 0 (Calldata.approve gateway amount) _ w λ t₁ e₁.
        seen N _ _ t₁ λ outbound _. stepped N _ _ t₁ (estimate-log _ t₁) λ params t₂ e₂.
          amount_seen N s.native_token _ _ t₂ λ fee.
            stepped_then N _ _ t₂ (approve_fee-log s.native_token gateway fee t₂) λ _ t₃ e₃.
              stepped_then N _ _ t₃
                (outbound_transfer-log token amount (params.gas_limit * 60) params.max_fee_per_gas
                  584000000000 fee t₃)
                λ _ t₄ e₄.
                  moved_last token gateway amount 584000000000 w before (params.gas_limit * 60)
                    params.max_fee_per_gas fee t₄
                    (log_of token gateway amount 584000000000 w before (params.gas_limit * 60)
                      params.max_fee_per_gas fee t₂ t₃ t₄ (e₂ ∙ e₁) e₃ e₄)
                    held
    where
      gateway : Text
      gateway = s.l2_network.token_bridge.l1_erc20_gateway

  -- If the deposit through the custom gateway passes its expectations, it has sent and moved the same
  -- through that gateway, with a submission cost of its own.
  deposit_custom_token-Deposited :
      (token : Text) (amount : ℕ) (w : World N)
      → Passes N
          (λ _ t.
            Deposited token s.l2_network.token_bridge.l1_custom_gateway amount 334400000000 w t)
          (deposit_custom_token N s token amount)
          w
  unfolding deposit_custom_token
  deposit_custom_token-Deposited token amount w = snapshot_seen token gateway _ w λ before held.
      called_then N parent s.user token 0 (Calldata.approve gateway amount) _ w λ t₁ e₁.
        amount_seen N s.native_token _ _ t₁ λ fee.
          stepped_then N _ _ t₁ (approve_fee-log s.native_token gateway fee t₁) λ _ t₃ e₃.
            stepped_then N _ _ t₃
              (outbound_transfer-log token amount 1000000 300000000 334400000000 fee t₃)
              λ _ t₄ e₄. seen N _ _ t₄ λ used _. expected N (used === gateway) _ t₄ λ _.
                moved_last token gateway amount 334400000000 w before 1000000 300000000 fee t₄
                  (log_of token gateway amount 334400000000 w before 1000000 300000000 fee t₁ t₃ t₄
                    e₁ e₃ e₄)
                  held
    where
      gateway : Text
      gateway = s.l2_network.token_bridge.l1_custom_gateway
