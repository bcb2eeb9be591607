-- ===== src/Usdc/Registration/Plans.antt =====
-- What the two ways to register do, next to each other.
use arb_bridge_peripherals.Base.{
  ◌≡◌, refl, ◌∙◌, true, false, not, none, some, List, [], ◌∷◌, ◌++◌, Text, Result, ok, arith, ◌===◌,
  ◌>>=◌, IsPreorder, Moves, moves_rules, effects, bind-eq-ok, then-eq-ok, bind-ok, then-ok,
  ask-some, ask, when, when-true, when-false, pure-state, pure-value, throw_if, pure, throw,
  Moves-bind, Moves-pure, Moves-throw, sym, ap,
}
use arb_bridge_peripherals.Amount.{get_prescaled_amount}
use arb_bridge_peripherals.Chain.Types.{parent, Getter, Calldata, Event, sent, wrote, Status}
use arb_bridge_peripherals.Chain.{Network, World, read, send, write_file, random_address}
use arb_bridge_peripherals.Chain.Logs.{SameLog, SameLog-preorder, wait_for_status-SameLog, send-log}
use arb_bridge_peripherals.Chain.FeeToken.{
  address_zero, get_fee_token, fee_token_answer, get_fee_token-answer,
}
use arb_bridge_peripherals.Usdc.Env.{Settings}
use arb_bridge_peripherals.Usdc.Registration.{
  Prepared, prepare_registration, registration_quote, is_upgrade_executor, multisig_txs,
  execute_registration, register_gateway, registration_tx, transfer_tx, approve_tx, wait_on_l2_msg,
}

module _ (N : Network) where
  -- Reads and random addresses alone.
  abbrev pub Looks : World N → World N → Type 0
  Looks w w' = (w'.chain ≡ w.chain) × (w'.log ≡ w.log)

  Looks-preorder : IsPreorder Looks
  Looks-preorder = record {
    reflexive = λ s. (refl, refl);
    transitive = λ s t u p q. (q.0 ∙ p.0, q.1 ∙ p.1);
  }

  random_address-Looks : Moves Looks (random_address N)
  unfolding random_address
  random_address-Looks = record { moves = λ s. (refl, refl) }

  pub prepare_registration-Looks :
      (s : Settings) (inbox gateway : Text) → Moves Looks (prepare_registration N s inbox gateway)
  unfolding prepare_registration get_fee_token is_upgrade_executor registration_quote
      get_prescaled_amount
  prepare_registration-Looks s inbox gateway =
      search (moves_rules, Looks-preorder, random_address-Looks) depth 20

  wait_on_l2_msg-SameLog : (tx : Text) → Moves (SameLog N) (wait_on_l2_msg N tx)
  unfolding wait_on_l2_msg
  wait_on_l2_msg-SameLog tx =
      Moves-bind (SameLog-preorder N) _ _ (wait_for_status-SameLog N tx 0) λ status. ends status
    where
      ends :
          (status : Status)
          → Moves (SameLog N) (elim status as (λ _. World N → Result (Unit {0}) × World N) [
            | Status.redeemed ↦ pure tt
            | _ ↦ throw "L1->L2 message not redeemed"
          ])
      ends Status.redeemed = Moves-pure (SameLog-preorder N) tt
      ends _ = Moves-throw (SameLog-preorder N) _

  -- The last steps of both ways, from a world in which all is prepared.
  module _ (s : Settings) (inbox key : Text) (p : Prepared) (w : World N) where
    pub file_eth :
        p.is_fee_token ≡ false
        → (multisig_txs N s inbox p >>= write_file N) w
          ≡ (ok tt, record w { log = w.log ++ (wrote (registration_tx s p ∷ []) ∷ []) })
    unfolding multisig_txs write_file effects
    file_eth eth = ground arith

    -- The registration itself, last on both kinds of chain.
    sent_last :
        (owner : Text) {t : World N} (v : World N)
        → (send N parent owner (registration_tx s p) >>= wait_on_l2_msg N) v ≡ (ok tt, t)
        → t.log ≡ v.log ++ (sent parent owner (registration_tx s p) ∷ [])
    sent_last owner v h =
        let (tx, u, e, rest) = bind-eq-ok (send N parent owner (registration_tx s p)) _ v h in
        ends u tx rest ∙ send-log N parent owner (registration_tx s p) v e
      where
        ends :
            (u : World N) (tx : Text) {t : World N}
            → wait_on_l2_msg N tx u ≡ (ok tt, t)
            → t.log ≡ u.log
        ends u tx e =
            ap (λ (q : Result (Unit {0}) × World N). q.1.log) (sym e)
            ∙ (wait_on_l2_msg-SameLog tx).moves u

    pub sent_eth :
        {owner : Text} {t : World N}
        → p.is_fee_token ≡ false
        → N.wallet_address key ≡ some owner
        → execute_registration N s inbox p key w ≡ (ok tt, t)
        → t.log ≡ w.log ++ (sent parent owner (registration_tx s p) ∷ [])
    unfolding execute_registration
    sent_eth {owner} eth known h = sent_last owner w (
        sym (then-ok (when p.is_fee_token _) _ w tt w (when-false _ _ w eth))
        ∙ sym (bind-ok (ask (λ _. N.wallet_address key)) _ w owner w (ask-some _ w owner known))
        ∙ h)

    pub file_token :
        (token : Text)
        → p.is_fee_token ≡ true
        → fee_token_answer N inbox w.chain ≡ ok token
        → (multisig_txs N s inbox p >>= write_file N) w ≡ (
          ok tt,
          record w {
            log =
                w.log
                ++ (wrote (
                      transfer_tx token p
                      ∷ approve_tx p (Calldata.approve s.l1_router p.quote.total_fee)
                      ∷ registration_tx s p
                      ∷ [])
                    ∷ []);
          },
        )
    unfolding multisig_txs write_file effects
    file_token token fee answer = ground (arith, get_fee_token-answer N inbox w)

    pub sent_token :
        (token : Text) {owner : Text} {t : World N}
        → p.is_fee_token ≡ true
        → fee_token_answer N inbox w.chain ≡ ok token
        → N.wallet_address key ≡ some owner
        → execute_registration N s inbox p key w ≡ (ok tt, t)
        → t.log
          ≡ ((w.log ++ (sent parent owner (transfer_tx token p) ∷ []))
              ++ (sent parent owner (
                    approve_tx p (
                      Calldata.execute_call token (Calldata.approve s.l1_router p.quote.total_fee)))
                  ∷ []))
            ++ (sent parent owner (registration_tx s p) ∷ [])
    unfolding execute_registration
    sent_token token {owner} fee answer known h =
        let asked =
          sym (bind-ok (ask (λ _. N.wallet_address key)) _ w owner w (ask-some _ w owner known))
          ∙ h in
        let (_, u, e₁, last) = then-eq-ok (when p.is_fee_token _) _ w asked in
        let payment = sym (when-true _ _ w fee) ∙ e₁ in
        let found = get_fee_token-answer N inbox w ∙ ap (λ (r : Result Text). (r, w)) answer in
        let sends = sym (bind-ok (get_fee_token N inbox) _ w token w found) ∙ payment in
        let (_, v, e₂, sends') = then-eq-ok (send N parent owner (transfer_tx token p)) _ w sends in
        let (_, v', e₃, done) = then-eq-ok (send N parent owner (approve_tx p _)) _ v sends' in
        sent_last owner u last
        ∙ ap (λ (l : List Event). l ++ (sent parent owner (registration_tx s p) ∷ []))
            (ap (λ (x : World N). x.log) (sym (pure-state tt v' done))
              ∙ send-log N parent owner _ v e₃
              ∙ ap
                  (λ (l : List Event).
                    l
                    ++ (sent parent owner (
                          approve_tx p (
                            Calldata.execute_call token
                              (Calldata.approve s.l1_router p.quote.total_fee)))
                        ∷ []))
                  (send-log N parent owner _ w e₂))

  -- What is prepared on a chain with the given fee token.
  pub prepared-is_fee_token :
      (s : Settings) (inbox gateway token : Text) (w : World N) {p : Prepared} {v : World N}
      → fee_token_answer N inbox w.chain ≡ ok token
      → prepare_registration N s inbox gateway w ≡ (ok p, v)
      → p.is_fee_token ≡ not (token === address_zero)
  unfolding prepare_registration
  prepared-is_fee_token s inbox gateway token w answer h =
      let found = get_fee_token-answer N inbox w ∙ ap (λ (r : Result Text). (r, w)) answer in
      let run = sym (bind-ok (get_fee_token N inbox) _ w token w found) ∙ h in
      let (executor, u₁, _, h₁) = bind-eq-ok (read N parent s.l1_router Getter.owner) _ w run in
      let (is, u₂, _, h₂) = bind-eq-ok (is_upgrade_executor N executor) _ u₁ h₁ in
      let (_, u₃, _, h₃) = then-eq-ok (throw_if (not is) _) _ u₂ h₂ in
      let (q, u₄, _, h₄) = bind-eq-ok (registration_quote N s inbox gateway _) _ u₃ h₃ in
      ap (λ (r : Prepared). r.is_fee_token) (sym (pure-value _ u₄ h₄))

  -- Both ways share what is prepared, so it is taken once, with its world.
  module _ (s : Settings) (inbox gateway key token : Text) (w : World N) {owner : Text}
      {f k : World N} (answer : fee_token_answer N inbox w.chain ≡ ok token)
      (known : N.wallet_address key ≡ some owner)
      (filed : register_gateway N s none inbox gateway w ≡ (ok tt, f))
      (executed : register_gateway N s (some key) inbox gateway w ≡ (ok tt, k)) where
    abbrev pub Shared : Type 0
    Shared =
        (p : Prepared) × (v : World N) × (prepare_registration N s inbox gateway w ≡ (ok p, v))
        × ((multisig_txs N s inbox p >>= write_file N) v ≡ (ok tt, f))
        × (execute_registration N s inbox p key v ≡ (ok tt, k))

    pub sharing : Shared
    unfolding register_gateway
    sharing =
        let (p, v, e, h) = bind-eq-ok (prepare_registration N s inbox gateway) _ w filed in
        (p, v, e, h, sym (bind-ok (prepare_registration N s inbox gateway) _ w p v e) ∙ executed)
