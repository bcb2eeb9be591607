-- ===== src/Chain/Typed.antt =====
-- The types of a run's transactions: which contract an address has been given to, and which calls that
-- contract has. The arities are those of the contracts' `initialize`, and the types of the templates
-- those of the creator's `setTemplates`.
pub mod Steps
use arb_bridge_peripherals.Base.{
  ℕ, ◌≡◌, refl, sym, ap, ◌∙◌, ◌⊎◌, inl, inr, Option, none, some, List, [], ◌∷◌, ◌++◌, Text, String,
  ok, err, failed, Result, IsPreorder, All, All-map, All-append, append-nil, append_assoc, length,
  subst, Script, Triple, Post, Post-bind, Post-then, Post-weaken, ◌>>=◌, ◌>>◌, Post-pure, pure,
  when, true, false, Bool,
}
use arb_bridge_peripherals.Chain.Types.{
  Layer, Contract, Tx, Calldata, Event, deployed, sent, wrote, submitted, registered, saved,
  L1Templates, L2Templates,
}
use arb_bridge_peripherals.Chain.{Network, World, Run, deploy, send, submit}

-- How many arguments the initializer of a contract takes.
unfoldable pub initializer_arity : Contract → Option ℕ
initializer_arity Contract.l1_atomic_token_bridge_creator = some 1
initializer_arity Contract.l1_token_bridge_retryable_sender = some 0
initializer_arity Contract.l1_gateway_router = some 5
initializer_arity Contract.l1_orbit_gateway_router = some 5
initializer_arity Contract.l1_erc20_gateway = some 5
initializer_arity Contract.l1_orbit_erc20_gateway = some 5
initializer_arity Contract.l1_custom_gateway = some 4
initializer_arity Contract.l1_orbit_custom_gateway = some 4
initializer_arity Contract.l1_weth_gateway = some 5
initializer_arity Contract.l2_gateway_router = some 2
initializer_arity Contract.l2_erc20_gateway = some 3
initializer_arity Contract.l2_custom_gateway = some 2
initializer_arity Contract.l2_weth_gateway = some 4
initializer_arity Contract.l1_usdc_gateway = some 6
initializer_arity Contract.l1_orbit_usdc_gateway = some 6
initializer_arity Contract.l2_usdc_gateway = some 5
initializer_arity _ = none

-- An address, with the contract that is expected at it.
abbrev pub Fact : Type 0
Fact = Contract × Text

-- The templates with their types.
abbrev pub l1_facts : L1Templates → List Fact
l1_facts t =
    (Contract.upgrade_executor, t.upgrade_executor)
    ∷ (Contract.l1_orbit_custom_gateway, t.fee_token_based_custom_gateway_template)
    ∷ (Contract.l1_orbit_erc20_gateway, t.fee_token_based_standard_gateway_template)
    ∷ (Contract.l1_orbit_gateway_router, t.fee_token_based_router_template)
    ∷ (Contract.l1_weth_gateway, t.weth_gateway_template)
    ∷ (Contract.l1_custom_gateway, t.custom_gateway_template)
    ∷ (Contract.l1_erc20_gateway, t.standard_gateway_template)
    ∷ (Contract.l1_gateway_router, t.router_template)
    ∷ []

abbrev pub l2_facts : L2Templates → List Fact
l2_facts t =
    (Contract.ae_weth, t.l2_weth)
    ∷ (Contract.l2_weth_gateway, t.l2_weth_gateway)
    ∷ (Contract.l2_custom_gateway, t.l2_custom_gateway)
    ∷ (Contract.l2_erc20_gateway, t.l2_standard_gateway)
    ∷ (Contract.l2_gateway_router, t.l2_gateway_router)
    ∷ (Contract.l2_atomic_token_bridge_factory, t.l2_token_bridge_factory)
    ∷ (Contract.arb_multicall2, t.l2_multicall)
    ∷ []

module _ (l : Layer) where
  -- The log has a deployment of the contract at the address.
  abbrev pub Has : List Event → Fact → Type 0
  Has log (c, a) = (before after : List Event) × (log ≡ before ++ deployed l c a ∷ after)

  -- Behind the address is the contract, perhaps behind a proxy.
  abbrev pub Behind : List Event → Contract → Text → Type 0
  Behind log c a =
      Has log (c, a)
      ⊎ ((logic admin init : Text) × Has log
            (Contract.transparent_upgradeable_proxy logic admin init, a)
          × Has log (c, logic))

  -- The contract has the call, and the arguments have the types of its parameters.
  abbrev pub Takes : List Event → Contract → Calldata → Type 0
  Takes log c (Calldata.initialize args) = initializer_arity c ≡ some (length args)
  Takes log c (Calldata.set_templates l1 l2 l1_weth multicall gas_limit) =
      (c ≡ Contract.l1_atomic_token_bridge_creator)
      × All (Has log) (l1_facts l1)
      × All (Has log) (l2_facts l2)
      × Has log (Contract.multicall2, multicall)
  Takes log c _ = ⊥

  abbrev pub IsTyped : List Event → Event → Type 0
  IsTyped log (deployed l' c a) = l' ≡ l
  IsTyped log (sent l' from tx) =
      (l' ≡ l) × ((c : Contract) × Behind log c tx.to × Takes log c tx.calldata)
  IsTyped log (wrote txs) = ⊥
  IsTyped log (submitted name a args) = (c : Contract) × Has log (c, a)
  IsTyped log (registered l1 l2) = ⊥
  IsTyped log (saved f) = ⊥

  -- Each event is typed by those before it.
  abbrev pub AllTyped : List Event → List Event → Type 0
  AllTyped log [] = Unit
  AllTyped log (e ∷ es) = IsTyped log e × AllTyped (log ++ e ∷ []) es

  pub AllTyped-append :
      (log xs ys : List Event) → AllTyped log xs → AllTyped (log ++ xs) ys → AllTyped log (xs ++ ys)
  AllTyped-append log [] ys h k = subst (λ x. AllTyped x ys) (append-nil log) k
  AllTyped-append log (x ∷ xs) ys (h, hs) k = (
    h,
    AllTyped-append (log ++ x ∷ []) xs ys hs
        (subst (λ z. AllTyped z ys) (sym (append_assoc log (x ∷ []) xs)) k),
  )

  pub Has-append : (log es : List Event) (f : Fact) → Has log f → Has (log ++ es) f
  Has-append log es (c, a) (before, after, e) =
      (before, after ++ es, ap (λ x. x ++ es) e ∙ append_assoc before (deployed l c a ∷ after) es)

  pub Has-last :
      (log : List Event) (c : Contract) (a : Text) → Has (log ++ deployed l c a ∷ []) (c, a)
  Has-last log c a = (log, [], refl)
