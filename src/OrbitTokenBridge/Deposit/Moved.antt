-- ===== src/OrbitTokenBridge/Deposit/Moved.antt =====
-- What a deposit that passes its test has moved.
use arb_bridge_peripherals.Base.{
  ℕ, ◌+◌, ◌^◌, ◌<◌, ◌≤◌, ◌≡◌, refl, sym, ap, ◌∙◌, subst, Option, none, some, true, Text, ◌>>=◌,
  arith, ◌==◌, leb, ==_sound, leb→le, Post-pure,
}
use arb_bridge_peripherals.Chain.Types.{parent, child, Getter, NumberGetter}
use arb_bridge_peripherals.Chain.{Network, World, Run}
use arb_bridge_peripherals.DeploymentCheck.{expect}
use arb_bridge_peripherals.OrbitTokenBridge.{Setup, native_balance}
use arb_bridge_peripherals.OrbitTokenBridge.Deposit.{
  Balances, to_number, snapshot, expect_paid, expect_deposited,
}
use arb_bridge_peripherals.OrbitTokenBridge.Steps.{
  Passes, HasNative, seen, stepped_then, expected, expected_last, native_seen,
}

module _ (N : Network) (s : Setup) where
  -- The balances of a deposit's token and of the chain's currency in a state of the chains.
  pub record Holds (token gateway : Text) (x : N.State) (b : Balances) : Type 0 where
    pub of_user : N.read_number parent token (NumberGetter.balance_of s.user) x ≡ some b.user_token
    pub of_gateway :
        N.read_number parent token (NumberGetter.balance_of gateway) x ≡ some b.gateway_token
    pub native_of_user : HasNative N s.native_token s.user x b.user_native
    pub native_of_bridge :
        HasNative N s.native_token s.l2_network.eth_bridge.bridge x b.bridge_native

  -- The user has paid a fee; in ETH, the gas of the transactions has been paid as well, and the fee is
  -- a safe integer.
  abbrev pub Paid : Option Text → ℕ → ℕ → ℕ → Type 0
  Paid none before after fee = (fee < 2 ^ 53) × (after + fee ≤ before)
  Paid (some native) before after fee = before ≡ after + fee

  -- The amount has come from the user to the gateway, and to the user's account on the child chain; the
  -- fee has come from the user to the bridge.
  pub record Moved (token : Text) (amount fee : ℕ) (before after : Balances) (x : N.State)
      : Type 0 where
    pub l2_token : Text
    pub is_l2_token :
        N.read parent s.l2_network.token_bridge.l1_gateway_router
          (Getter.calculate_l2_token_address token)
          x
        ≡ some l2_token
    pub received : N.read_number child l2_token (NumberGetter.balance_of s.user) x ≡ some amount
    pub from_user : before.user_token ≡ after.user_token + amount
    pub to_gateway : after.gateway_token ≡ before.gateway_token + amount
    pub paid : Paid s.native_token before.user_native after.user_native fee
    pub to_bridge : after.bridge_native ≡ before.bridge_native + fee

  to_number-lt : (n m : ℕ) → to_number n ≡ some m → (n < 2 ^ 53) × (m ≡ n)
  unfolding to_number
  to_number-lt n m e = ground arith

  expect_paid-Paid :
      (native : Option Text) (before after fee : ℕ) (w : World N)
      → Passes N
          (λ _ t. (t ≡ w) × Paid native before after fee)
          (expect_paid N s native before after fee)
          w
  unfolding expect_paid to_number
  expect_paid-Paid none before after fee w =
      seen N _ _ w (λ n e. expected_last N _ w (λ h. (refl, paid_in_eth n e h)))
    where
      paid_in_eth :
          (n : ℕ)
          → to_number fee ≡ some n
          → leb (after + n) before ≡ true
          → (fee < 2 ^ 53) × (after + fee ≤ before)
      paid_in_eth n e h =
          let (small, same) = to_number-lt fee n e in
          (small, subst (λ x. after + x ≤ before) same (leb→le (after + n) before h))
  expect_paid-Paid (some native) before after fee w =
      expected_last N (before == after + fee) w (λ h. (refl, ==_sound before (after + fee) h))

  pub snapshot-Holds :
      (token gateway : Text) (w : World N)
      → Passes N (λ b t. (t ≡ w) × Holds token gateway w.chain b) (snapshot N s token gateway) w
  unfolding snapshot
  snapshot-Holds token gateway w = seen N _ _ w λ user_token e₁. seen N _ _ w λ gateway_token e₂.
      native_seen N s.native_token s.user _ w λ user_native e₃.
        native_seen N s.native_token s.l2_network.eth_bridge.bridge _ w λ bridge_native e₄.
          Post-pure _ w (
            refl,
            record { of_user = e₁; of_gateway = e₂; native_of_user = e₃; native_of_bridge = e₄ },
          )

  -- Nothing has changed since `w`, in which the balances are those after the deposit.
  abbrev pub Ends : Text → Text → Balances → ℕ → ℕ → World N → Unit {0} → World N → Type 0
  Ends token gateway before amount fee w _ t =
      (t ≡ w)
      × (after : Balances) × Holds token gateway w.chain after
      × Moved token amount fee before after w.chain

  -- The expectations after a deposit only read.
  pub expect_deposited-Moved :
      (token gateway : Text) (before : Balances) (amount fee : ℕ) (w : World N)
      → Passes N
          (Ends token gateway before amount fee w)
          (expect_deposited N s token gateway before amount fee)
          w
  unfolding expect_deposited
  expect_deposited-Moved token gateway before amount fee w = seen N _ _ w λ l2_token e₁.
      seen N _ _ w λ received e₂. expected N (received == amount) _ w λ h₂.
        seen N _ _ w λ user_token e₃.
          expected N (before.user_token == user_token + amount) _ w λ h₃.
            seen N _ _ w λ gateway_token e₄.
              expected N (gateway_token == before.gateway_token + amount) _ w λ h₄.
                native_seen N s.native_token s.user _ w λ user_native e₅.
                  stepped_then N _ _ w
                    (expect_paid-Paid s.native_token before.user_native user_native fee w)
                    λ _ t (same, h₅).
                      subst
                        (λ x. Passes N (Ends token gateway before amount fee w) (last before fee) x)
                        (sym same)
                        (native_seen N s.native_token s.l2_network.eth_bridge.bridge _ w
                          λ bridge_native e₆.
                            expected_last N {Q = Ends token gateway before amount fee w}
                              (bridge_native == before.bridge_native + fee) w
                              λ h₆. (
                                refl,
                                record {
                                  user_token = user_token;
                                  gateway_token = gateway_token;
                                  user_native = user_native;
                                  bridge_native = bridge_native;
                                },
                                record {
                                  of_user = e₃;
                                  of_gateway = e₄;
                                  native_of_user = e₅;
                                  native_of_bridge = e₆;
                                },
                                record {
                                  l2_token = l2_token;
                                  is_l2_token = e₁;
                                  received = e₂ ∙ ap some (==_sound received amount h₂);
                                  from_user = ==_sound before.user_token (user_token + amount) h₃;
                                  to_gateway =
                                      ==_sound gateway_token (before.gateway_token + amount) h₄;
                                  paid = h₅;
                                  to_bridge =
                                      ==_sound bridge_native (before.bridge_native + fee) h₆;
                                },
                              ))
    where
      last : Balances → ℕ → Run N (Unit {0})
      last b n = native_balance N s.native_token s.l2_network.eth_bridge.bridge >>= λ x.
          expect N (x == b.bridge_native + n)
