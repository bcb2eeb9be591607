-- ===== src/Usdc/Registration.antt =====
-- `_registerGateway`, `_isUpgradeExecutor` and `_waitOnL2Msg`: the registration of the gateway in the
-- router, sent with the rollup owner's key, or written to a file for a multisig.
pub mod Plans
pub mod Comparison
use arb_bridge_peripherals.Base.{
  ℕ, ◌+◌, ◌*◌, Bool, true, false, not, Option, none, some, List, [], ◌∷◌, ◌++◌, ◌===◌, Text, pure,
  throw, throw_if, when, catch, ask, if◌then◌else◌, ◌>>=◌, ◌>>◌, err, failed,
}
use arb_bridge_peripherals.Amount.{get_prescaled_amount}
use arb_bridge_peripherals.Chain.Types.{
  parent, child, Getter, NumberGetter, Calldata, Tx, GasParams, Status,
}
use arb_bridge_peripherals.Chain.{
  Network, World, Run, read, send, write_file, random_address, estimate_all, wait_for_status,
}
use arb_bridge_peripherals.Chain.FeeToken.{address_zero, get_fee_token}
use arb_bridge_peripherals.Usdc.Env.{Settings}

-- The gas of the retryable ticket, and its fee in the chain's fee token.
pub record Quote : Type 0 where
  pub max_gas : ℕ
  pub gas_price_bid : ℕ
  pub max_submission_cost : ℕ
  pub total_fee : ℕ

unfoldable pub quote_of : GasParams → Quote
quote_of p = record {
  max_gas = p.gas_limit;
  gas_price_bid = p.max_fee_per_gas * 3;
  max_submission_cost = p.max_submission_cost;
  total_fee = p.gas_limit * (p.max_fee_per_gas * 3) + p.max_submission_cost;
}

unfoldable pub registration_calldata : Bool → Text → Text → Quote → Calldata
registration_calldata is_fee_token l1_usdc gateway q =
    if is_fee_token
    then Calldata.set_gateways_with_fee (l1_usdc ∷ []) (gateway ∷ []) q.max_gas q.gas_price_bid
        q.max_submission_cost q.total_fee
    else Calldata.set_gateways (l1_usdc ∷ []) (gateway ∷ []) q.max_gas q.gas_price_bid
        q.max_submission_cost

-- What both ways to register start from.
pub record Prepared : Type 0 where
  pub is_fee_token : Bool
  -- the router's owner
  pub executor : Text
  pub quote : Quote
  pub calldata : Calldata

-- The call through which the executor registers the gateway.
unfoldable pub registration_tx : Settings → Prepared → Tx
registration_tx s p = record {
  to = p.executor;
  value = if p.is_fee_token then 0 else p.quote.total_fee;
  calldata = Calldata.execute_call s.l1_router p.calldata;
}

-- The fee goes to the executor.
unfoldable pub transfer_tx : Text → Prepared → Tx
transfer_tx fee_token p = record {
  to = fee_token;
  value = 0;
  calldata = Calldata.transfer p.executor p.quote.total_fee;
}

-- The executor's approval for the router, as the calldata that the executor is sent.
unfoldable pub approve_tx : Prepared → Calldata → Tx
approve_tx p calldata = record { to = p.executor; value = 0; calldata = calldata }

module _ (N : Network) where
  unfoldable pub is_upgrade_executor : Text → Run N Bool
  is_upgrade_executor owner =
      catch
        (do
          read N parent owner Getter.admin_role
          read N parent owner Getter.executor_role
          pure true)
        (pure false)

  -- Waits for the first ticket of a transaction.
  unfoldable pub wait_on_l2_msg : Text → Run N (Unit {0})
  wait_on_l2_msg tx = do
    status ← wait_for_status N tx 0
    elim status [ Status.redeemed ↦ pure tt | _ ↦ throw "L1->L2 message not redeemed" ]

  -- The gas estimate, with the fee scaled if it is paid in a token.
  unfoldable pub registration_quote : Settings → Text → Text → Bool → Run N Quote
  registration_quote s inbox gateway is_fee_token = do
    excess ← random_address N
    call_value ← random_address N
    params ← estimate_all N (record {
      from = s.l1_router;
      to = s.l2_router;
      l2_call_value = 0;
      excess_fee_refund_address = excess;
      call_value_refund_address = call_value;
      calldata = Calldata.set_gateway (s.l1_usdc ∷ []) (gateway ∷ []);
    })
    let q = quote_of params
    if is_fee_token
        then (do
          token ← get_fee_token N inbox
          total ←
              get_prescaled_amount (λ t w. N.read_number parent t NumberGetter.decimals w.chain)
                token q.total_fee
          pure (record q { total_fee = total }))
        else pure q

  -- The steps that both ways to register share.
  unfoldable pub prepare_registration : Settings → Text → Text → Run N Prepared
  prepare_registration s inbox gateway = do
    fee_token ← get_fee_token N inbox
    let is_fee_token = not (fee_token === address_zero)
    executor ← read N parent s.l1_router Getter.owner
    is_executor ← is_upgrade_executor executor
    throw_if (not is_executor) "Router owner is expected to be an UpgradeExecutor"
    q ← registration_quote s inbox gateway is_fee_token
    pure (record {
      is_fee_token = is_fee_token;
      executor = executor;
      quote = q;
      calldata = registration_calldata is_fee_token s.l1_usdc gateway q;
    })

  -- The transactions for a multisig, as written to `registerUsdcGatewayTx.json`.
  unfoldable pub multisig_txs : Settings → Text → Prepared → Run N (List Tx)
  multisig_txs s inbox p =
      if p.is_fee_token
      then (do
        fee_token ← get_fee_token N inbox
        pure (
            transfer_tx fee_token p
            ∷ approve_tx p (Calldata.approve s.l1_router p.quote.total_fee)
            ∷ registration_tx s p
            ∷ []))
      else pure (registration_tx s p ∷ [])

  -- The transactions with the rollup owner's key.
  unfoldable pub execute_registration : Settings → Text → Prepared → Text → Run N (Unit {0})
  execute_registration s inbox p key = do
    rollup_owner ← ask (λ _. N.wallet_address key)
    when p.is_fee_token (do
      fee_token ← get_fee_token N inbox
      send N parent rollup_owner (transfer_tx fee_token p)
      send N parent rollup_owner (
          approve_tx p
            (Calldata.execute_call fee_token (Calldata.approve s.l1_router p.quote.total_fee)))
      pure tt)
    tx ← send N parent rollup_owner (registration_tx s p)
    wait_on_l2_msg tx

  unfoldable pub register_gateway : Settings → Option Text → Text → Text → Run N (Unit {0})
  register_gateway s owner_key inbox gateway = do
    p ← prepare_registration s inbox gateway
    elim owner_key [
      | none ↦ (do txs ← multisig_txs s inbox p; write_file N txs)
      | some key ↦ execute_registration s inbox p key
    ]
