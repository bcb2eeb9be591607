-- ===== src/TokenBridge/Create.antt =====
-- `createTokenBridge`: the fees are paid or approved, the creator is called, and the tickets are waited
-- for.
pub mod Payment
pub mod Tickets
use arb_bridge_peripherals.Base.{
  ℕ, zero, suc, ◌+◌, Bool, not, Option, List, [], ◌∷◌, ◌===◌, ◌&&◌, Text, pure, exit, ask, when,
  ◌>>=◌, ◌>>◌, if◌then◌else◌, none, some, true, false,
}
use arb_bridge_peripherals.Amount.{get_scaled_amount}
use arb_bridge_peripherals.Chain.NetworkTypes.{L1Deployment, L2Deployment}
use arb_bridge_peripherals.Chain.Types.{parent, child, Getter, NumberGetter, Calldata, Tx, Status}
use arb_bridge_peripherals.Chain.{Network, World, Run, read, read_number, send, wait_for_status}
use arb_bridge_peripherals.Chain.FeeToken.{address_zero, get_fee_token}
use arb_bridge_peripherals.TokenBridge.Gas.{
  TicketFees, ticket_fees, get_estimate_for_deploying_factory, random_addresses,
}

unfoldable pub is_redeemed : Status → Bool
is_redeemed Status.redeemed = true
is_redeemed _ = false

-- `messageResults[0]` and `messageResults[1]`
abbrev pub first_two : List Status → Option (Status × Status)
first_two [] = none
first_two (a ∷ []) = none
first_two (a ∷ b ∷ rest) = some (a, b)

-- What `createTokenBridge` returns.
pub record Deployment : Type 0 where
  pub l1_deployment : L1Deployment
  pub l2_deployment : L2Deployment
  pub l1_multi_call : Text
  pub l1_proxy_admin : Text

-- The creator's call, with the fees as its value unless they are paid in a token.
unfoldable pub create_tx : Text → Text → Text → Text → ℕ → TicketFees → Tx
create_tx creator inbox rollup_owner fee_token gas_price fees = record {
  to = creator;
  value = if fee_token === address_zero then fees.for_factory + fees.for_contracts else 0;
  calldata = Calldata.create_token_bridge inbox rollup_owner fees.max_gas_for_contracts gas_price;
}

module _ (N : Network) where
  -- The fees of the two tickets.
  unfoldable pub estimate_tickets : Text → Text → ℕ → Run N TicketFees
  estimate_tickets signer creator gas_price = do
    params ← get_estimate_for_deploying_factory N signer
    max_gas_for_factory ←
        read_number N parent creator NumberGetter.gas_limit_for_l2_factory_deployment
    template ← read N parent creator Getter.l2_token_bridge_factory_template
    addresses ← random_addresses N 8
    estimate ← ask (λ w.
        N.estimate_gas parent signer
          (record { to = template; value = 0; calldata = Calldata.deploy_l2_contracts addresses })
          w.chain)
    pure (ticket_fees gas_price params.max_submission_cost max_gas_for_factory estimate)

  -- The creator may take both fees, each scaled to the token's decimals.
  unfoldable pub approve_fees : Text → Text → Text → TicketFees → Run N (Unit {0})
  approve_fees signer creator fee_token fees = do
    for_factory ←
        get_scaled_amount (λ t w. N.read_number parent t NumberGetter.decimals w.chain) fee_token
          fees.for_factory
    for_contracts ←
        get_scaled_amount (λ t w. N.read_number parent t NumberGetter.decimals w.chain) fee_token
          fees.for_contracts
    send N parent signer (record {
      to = fee_token;
      value = 0;
      calldata = Calldata.approve creator (for_factory + for_contracts);
    })
    pure tt

  -- `Promise.all(messages.map(message => message.waitForStatus()))`, from the i-th message on. The source
  -- starts the waits at once; here they are made one after the other, since a wait changes nothing that
  -- another one depends on but the time, and `Promise.all` keeps the order of the messages.
  unfoldable pub wait_all : Text → ℕ → ℕ → Run N (List Status)
  wait_all tx i zero = pure []
  wait_all tx i (suc n) = do
    status ← wait_for_status N tx i
    rest ← wait_all tx (i + 1) n
    pure (status ∷ rest)

  -- Ends the process unless the first two tickets are redeemed; with fewer than two tickets, the
  -- access to the missing one raises an error.
  unfoldable pub await_tickets : Text → Run N (Unit {0})
  await_tickets tx = do
    count ← ask (λ w. N.message_count tx w.chain)
    results ← wait_all tx 0 count
    both ← ask (λ _. first_two results)
    if is_redeemed both.0 && is_redeemed both.1 then pure tt else exit

  unfoldable pub fetch_deployment : Text → Text → Run N Deployment
  fetch_deployment creator inbox = do
    l1 ← ask (λ w. N.inbox_to_l1_deployment creator inbox w.chain)
    l2 ← ask (λ w. N.inbox_to_l2_deployment creator inbox w.chain)
    multi_call ← read N parent creator Getter.l1_multicall
    proxy_admin ← read N parent inbox Getter.proxy_admin
    pure (record {
      l1_deployment = l1;
      l2_deployment = l2;
      l1_multi_call = multi_call;
      l1_proxy_admin = proxy_admin;
    })

  -- Pays for the two tickets, and makes them.
  unfoldable pub pay_and_create : Text → Text → Text → Text → ℕ → TicketFees → Run N Text
  pay_and_create signer creator inbox rollup_owner gas_price fees = do
    fee_token ← get_fee_token N inbox
    when (not (fee_token === address_zero)) (approve_fees signer creator fee_token fees)
    send N parent signer (create_tx creator inbox rollup_owner fee_token gas_price fees)

  unfoldable pub create_token_bridge : Text → Text → Text → Text → Run N Deployment
  create_token_bridge signer creator rollup rollup_owner = do
    gas_price ← ask (λ w. N.gas_price child w.chain)
    fees ← estimate_tickets signer creator gas_price
    inbox ← read N parent rollup Getter.inbox
    tx ← pay_and_create signer creator inbox rollup_owner gas_price fees
    await_tickets tx
    fetch_deployment creator inbox
