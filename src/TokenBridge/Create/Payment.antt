-- ===== src/TokenBridge/Create/Payment.antt =====
-- What `createTokenBridge` pays for the two tickets, and what it has seen when it returns.
use arb_bridge_peripherals.Base.{
  ℕ, ◌+◌, ◌*◌, ◌^◌, ◌≤◌, ◌≡◌, sym, ap, ◌∙◌, not, Bool, true, false, some, [], ◌∷◌, ◌++◌, Text,
  Result, ok, ◌===◌, ===_refl, append_cong, then-eq-ok, bind-ok, when-true, when-false, when,
  effects, arith, if◌then◌else◌,
}
use arb_bridge_peripherals.Amount.{scaled_amount, get_scaled_amount}
use arb_bridge_peripherals.Amount.Scaling.{scaled_amount-IsLeast}
use arb_bridge_peripherals.Chain.Types.{parent, NumberGetter, Calldata, Tx, sent}
use arb_bridge_peripherals.Chain.{Network, World, send}
use arb_bridge_peripherals.Chain.Logs.{send-log}
use arb_bridge_peripherals.Chain.FeeToken.{
  address_zero, get_fee_token, fee_token_answer, get_fee_token-answer,
}
use arb_bridge_peripherals.TokenBridge.Gas.{TicketFees}
use arb_bridge_peripherals.TokenBridge.Create.{create_tx, approve_fees, pay_and_create}

module _ (N : Network) where
  -- The approval of both fees, each scaled by itself.
  abbrev approval : Text → Text → ℕ → TicketFees → Tx
  approval creator token decimals fees = record {
    to = token;
    value = 0;
    calldata =
        Calldata.approve creator
          (scaled_amount decimals fees.for_factory + scaled_amount decimals fees.for_contracts);
  }

  approve_fees-log :
      (signer creator token : Text) (fees : TicketFees) (decimals : ℕ) (w : World N) {t : World N}
      → N.read_number parent token NumberGetter.decimals w.chain ≡ some decimals
      → approve_fees N signer creator token fees w ≡ (ok tt, t)
      → t.log ≡ w.log ++ (sent parent signer (approval creator token decimals fees) ∷ [])
  unfolding approve_fees get_scaled_amount send effects
  approve_fees-log signer creator token fees decimals w e h = ground arith

  -- The creator's call with a value.
  abbrev pub creation : Text → Text → Text → ℕ → TicketFees → ℕ → Tx
  creation creator inbox rollup_owner gas_price fees value = record {
    to = creator;
    value = value;
    calldata = Calldata.create_token_bridge inbox rollup_owner fees.max_gas_for_contracts gas_price;
  }

  create_tx-creation :
      (creator inbox rollup_owner token : Text) (gas_price : ℕ) (fees : TicketFees) (b : Bool)
      → (token === address_zero) ≡ b
      → create_tx creator inbox rollup_owner token gas_price fees
        ≡ creation creator inbox rollup_owner gas_price fees
            (if b then fees.for_factory + fees.for_contracts else 0)
  unfolding create_tx
  create_tx-creation creator inbox rollup_owner token gas_price fees b e =
      ap
        (λ v.
          creation creator inbox rollup_owner gas_price fees
            (if v then fees.for_factory + fees.for_contracts else 0))
        e

  module _ (signer creator inbox rollup_owner : Text) (gas_price : ℕ) (fees : TicketFees)
      (w : World N) where
    -- A payment from the fee token on, once it is known.
    after_token :
        (token : Text) {tx : Text} {t : World N}
        → fee_token_answer N inbox w.chain ≡ ok token
        → pay_and_create N signer creator inbox rollup_owner gas_price fees w ≡ (ok tx, t)
        → (u : World N) × (when
              (not (token === address_zero))
              (approve_fees N signer creator token fees)
              w
            ≡ (ok tt, u))
          × (t.log
              ≡ u.log
                ++ (sent parent signer (create_tx creator inbox rollup_owner token gas_price fees)
                    ∷ []))
    unfolding pay_and_create
    after_token token answer run =
        let r =
          sym (
            bind-ok (get_fee_token N inbox) _ w token w
              (get_fee_token-answer N inbox w ∙ ap (λ (x : Result Text). (x, w)) answer))
          ∙ run in
        let (_, u, e, r₁) = then-eq-ok _ _ w r in (u, e, send-log N parent signer _ u r₁)

    -- On a chain that pays its fees in ETH, a payment that ends well is one transaction, the creator's call, and its
    -- value is the sum of the two tickets' fees.
    pub pay_and_create-eth :
        {tx : Text} {t : World N}
        → fee_token_answer N inbox w.chain ≡ ok address_zero
        → pay_and_create N signer creator inbox rollup_owner gas_price fees w ≡ (ok tx, t)
        → t.log
          ≡ w.log
            ++ (sent parent signer (
                  creation creator inbox rollup_owner gas_price fees
                    (fees.for_factory + fees.for_contracts))
                ∷ [])
    pay_and_create-eth {tx} {t} answer run =
        let (u, e, l) = after_token address_zero answer run in
        let free : (address_zero === address_zero) ≡ true = ===_refl address_zero in
        let same : u.log ≡ w.log =
          ap (λ (p : Result (Unit {0}) × World N). p.1.log)
            (sym e
              ∙ when-false _ (approve_fees N signer creator address_zero fees) w (ap not free)) in
        l
        ∙ append_cong _ same
        ∙ ap (λ x. w.log ++ (sent parent signer x ∷ []))
            (create_tx-creation creator inbox rollup_owner address_zero gas_price fees true free)

    -- On a chain with a fee token whose decimals are known, in a payment that ends well the signer first
    -- approves, for the creator, the sum of the two fees,
    -- each rounded up to the token's decimals, and then calls the creator without a value. The
    -- approved amount is worth at least the sum of the fees.
    pub pay_and_create-token :
        (token : Text) (decimals : ℕ) {tx : Text} {t : World N}
        → fee_token_answer N inbox w.chain ≡ ok token
        → (token === address_zero) ≡ false
        → N.read_number parent token NumberGetter.decimals w.chain ≡ some decimals
        → pay_and_create N signer creator inbox rollup_owner gas_price fees w ≡ (ok tx, t)
        → (amount : ℕ) × (t.log
            ≡ (w.log
                ++ (sent parent signer
                      (record { to = token; value = 0; calldata = Calldata.approve creator amount })
                    ∷ []))
              ++ (sent parent signer (creation creator inbox rollup_owner gas_price fees 0) ∷ []))
          × ((fees.for_factory + fees.for_contracts) * 10 ^ decimals ≤ amount * 10 ^ 18)
    pay_and_create-token token decimals {tx} {t} answer other known run =
        let (u, e, l) = after_token token answer run in
        let approved =
          approve_fees-log signer creator token fees decimals w known
            (sym (when-true _ (approve_fees N signer creator token fees) w (ap not other)) ∙ e) in
        (
          scaled_amount decimals fees.for_factory + scaled_amount decimals fees.for_contracts,
          l
              ∙ append_cong _ approved
              ∙ ap
                  (λ x.
                    (w.log ++ (sent parent signer (approval creator token decimals fees) ∷ []))
                    ++ (sent parent signer x ∷ []))
                  (create_tx-creation creator inbox rollup_owner token gas_price fees false other),
          enough,
        )
      where
        enough :
            (fees.for_factory + fees.for_contracts) * 10 ^ decimals
            ≤ (scaled_amount decimals fees.for_factory + scaled_amount decimals fees.for_contracts)
              * 10 ^ 18
        enough = grind (
          arith,
          (scaled_amount-IsLeast decimals fees.for_factory).0,
          (scaled_amount-IsLeast decimals fees.for_contracts).0,
        )
