-- ===== src/TokenBridge/Gas.antt =====
-- `getEstimateForDeployingFactory`, and the fees of the two retryable tickets of `createTokenBridge`.
use arb_bridge_peripherals.Base.{ℕ, zero, suc, ◌+◌, ◌*◌, List, [], ◌∷◌, Text, pure, ◌>>=◌}
use arb_bridge_peripherals.Chain.Types.{l2_atomic_token_bridge_factory, Calldata, GasParams}
use arb_bridge_peripherals.Chain.{Network, Run, random_address, estimate_all}
use arb_bridge_peripherals.Chain.FeeToken.{address_zero}

-- The tickets: one for the factory on the child chain, one for the contracts that it deploys.
pub record TicketFees : Type 0 where
  pub max_gas_for_contracts : ℕ
  pub for_factory : ℕ
  pub for_contracts : ℕ

-- From the gas price, the submission cost, the factory's gas limit and the contracts' gas estimate.
unfoldable pub ticket_fees : ℕ → ℕ → ℕ → ℕ → TicketFees
ticket_fees gas_price submission_cost max_gas_for_factory estimate = record {
  max_gas_for_contracts = estimate * 2;
  for_factory = submission_cost + max_gas_for_factory * gas_price;
  for_contracts = submission_cost * 2 + estimate * 2 * gas_price;
}

module _ (N : Network) where
  unfoldable pub get_estimate_for_deploying_factory : Text → Run N GasParams
  get_estimate_for_deploying_factory deployer = do
    from ← random_address N
    estimate_all N (record {
      from = from;
      to = address_zero;
      l2_call_value = 0;
      excess_fee_refund_address = deployer;
      call_value_refund_address = deployer;
      calldata = Calldata.creation_code l2_atomic_token_bridge_factory;
    })

  -- `n` addresses of new random wallets.
  unfoldable pub random_addresses : ℕ → Run N (List Text)
  random_addresses zero = pure []
  random_addresses (suc n) = do a ← random_address N; rest ← random_addresses n; pure (a ∷ rest)
