-- ===== src/Usdc/Registration/Comparison.antt =====
-- The multisig's file against the transactions that the rollup owner's key sends.
use arb_bridge_peripherals.Base.{
  ◌≡◌, ◌∙◌, sym, ap, not, true, false, none, some, [], ◌∷◌, ◌++◌, Text, Result, ok, ◌===◌, ===_refl,
  append_cong,
}
use arb_bridge_peripherals.Chain.Types.{parent, Calldata, Tx, sent, wrote}
use arb_bridge_peripherals.Chain.{Network, World}
use arb_bridge_peripherals.Chain.FeeToken.{address_zero, fee_token_answer}
use arb_bridge_peripherals.Usdc.Env.{Settings}
use arb_bridge_peripherals.Usdc.Registration.{
  Prepared, register_gateway, registration_tx, transfer_tx, approve_tx,
}
use arb_bridge_peripherals.Usdc.Registration.Plans.{
  prepare_registration-Looks, file_eth, sent_eth, file_token, sent_token, prepared-is_fee_token,
  sharing,
}

module _ (N : Network) (s : Settings) (inbox gateway key : Text) (w : World N) {owner : Text}
    {f k : World N} (known : N.wallet_address key ≡ some owner)
    (filed : register_gateway N s none inbox gateway w ≡ (ok tt, f))
    (executed : register_gateway N s (some key) inbox gateway w ≡ (ok tt, k)) where
  -- For a key with a known address, and two runs from one state that both end well: on a chain that pays
  -- its fees in ETH, the run without the owner's key writes a file that holds
  -- one transaction, and the run with the key sends that transaction from the owner and no other.
  pub register_gateway_eth :
      fee_token_answer N inbox w.chain ≡ ok address_zero
      → (tx : Tx) × (f.log ≡ w.log ++ (wrote (tx ∷ []) ∷ []))
        × (k.log ≡ w.log ++ (sent parent owner tx ∷ []))
  register_gateway_eth answer =
      let (p, v, e, hf, hk) =
        sharing N s inbox gateway key address_zero w answer known filed executed in
      let looks = (prepare_registration-Looks N s inbox gateway).moves w in
      let same : v.log ≡ w.log =
        ap (λ (q : Result Prepared × World N). q.1.log) (sym e) ∙ looks.1 in
      let eth : p.is_fee_token ≡ false =
        prepared-is_fee_token N s inbox gateway address_zero w answer e
        ∙ ap not (===_refl address_zero) in
      (
        registration_tx s p,
        ap (λ (q : Result (Unit {0}) × World N). q.1.log) (sym hf ∙ file_eth N s inbox key p v eth)
            ∙ append_cong _ same,
        sent_eth N s inbox key p v eth known hk ∙ append_cong _ same,
      )

  -- For a key with a known address, and two runs from one state that both end well: on a chain with a fee
  -- token, both runs make the same transfer of the fee to the executor and the
  -- same registration through it. The approval in between differs: with the key the executor is made
  -- to call the token's `approve`, while the file sends the calldata of `approve` to the executor.
  pub register_gateway_token :
      (token : Text)
      → fee_token_answer N inbox w.chain ≡ ok token
      → (token === address_zero) ≡ false
      → (p : Prepared) × (f.log
          ≡ w.log
            ++ (wrote (
                  transfer_tx token p
                  ∷ approve_tx p (Calldata.approve s.l1_router p.quote.total_fee)
                  ∷ registration_tx s p
                  ∷ [])
                ∷ []))
        × (k.log
            ≡ ((w.log ++ (sent parent owner (transfer_tx token p) ∷ []))
                ++ (sent parent owner (
                      approve_tx p (
                        Calldata.execute_call token
                          (Calldata.approve s.l1_router p.quote.total_fee)))
                    ∷ []))
              ++ (sent parent owner (registration_tx s p) ∷ []))
  register_gateway_token token answer other =
      let (p, v, e, hf, hk) = sharing N s inbox gateway key token w answer known filed executed in
      let looks = (prepare_registration-Looks N s inbox gateway).moves w in
      let same : v.log ≡ w.log =
        ap (λ (q : Result Prepared × World N). q.1.log) (sym e) ∙ looks.1 in
      let there : v.chain ≡ w.chain =
        ap (λ (q : Result Prepared × World N). q.1.chain) (sym e) ∙ looks.0 in
      let fee : p.is_fee_token ≡ true =
        prepared-is_fee_token N s inbox gateway token w answer e ∙ ap not other in
      let answer' : fee_token_answer N inbox v.chain ≡ ok token =
        ap (fee_token_answer N inbox) there ∙ answer in
      (
        p,
        ap (λ (q : Result (Unit {0}) × World N). q.1.log)
              (sym hf ∙ file_token N s inbox key p v token fee answer')
            ∙ append_cong _ same,
        sent_token N s inbox key p v token fee answer' known hk
            ∙ append_cong _ (append_cong _ (append_cong _ same)),
      )
