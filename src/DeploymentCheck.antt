-- ===== src/DeploymentCheck.antt =====
-- The check of a deployed token bridge, test-e2e/tokenBridgeDeploymentTest.ts: what it reads and expects
-- (here), the contracts of the parent chain (Parent), those of the child chain (Child), who owns them
-- (Ownership), and the test as a whole (Whole).
use arb_bridge_peripherals.Base.{
  ℕ, Bool, true, false, not, ◌&&◌, ◌||◌, Option, none, some, List, [], ◌∷◌, ◌++◌, Text, codes, take,
  drop, ◌===◌, ◌==◌, ltb, length, to_lower_case, same_address, pure, throw, throw_if, ask, catch,
  ◌>>=◌, ◌>>◌, ◌%◌, if◌then◌else◌,
}
use arb_bridge_peripherals.Chain.{Network, Run, read}
use arb_bridge_peripherals.Chain.Types.{Layer, parent, child, Getter}
use arb_bridge_peripherals.Chain.NetworkTypes.{L1Deployment, L2Deployment}
use arb_bridge_peripherals.Chain.FeeToken.{address_zero}
pub mod Parent
pub mod Child
pub mod Ownership
pub mod Whole
pub mod Rules
pub mod Wired
pub mod Unchanged
pub mod Sound
pub mod Fees
mod Tests

pub record RollupAddresses : Type 0 where
  pub rollup : Text
  pub inbox : Text
  pub rollup_owner : Text
  pub proxy_admin : Text
  pub upgrade_executor : Text
  pub multicall : Text

pub record Addresses : Type 0 where
  pub rollup_addresses : RollupAddresses
  pub l1_deployment : L1Deployment
  pub l2_deployment : L2Deployment

-- `storageValue.substring(0, 2) + storageValue.substring(26)`
unfoldable pub format_address : Text → Text
format_address t = take 2 t ++ drop 26 t

unfoldable pub last_of : List Text → Option Text
last_of [] = none
last_of (x ∷ []) = some x
last_of (x ∷ y ∷ ys) = last_of (y ∷ ys)

module _ (N : Network) where
  -- `expect(…).to.be.true`
  unfoldable pub expect : Bool → Run N (Unit {0})
  expect b = throw_if (not b) "AssertionError"

  -- `expect((await contract.getter()).toLowerCase()).to.be.eq(expected.toLowerCase())`
  unfoldable pub expect_same : Layer → Text → Getter → Text → Run N (Unit {0})
  unfolding expect
  expect_same l a g expected = do v ← read N l a g; expect (same_address v expected)

  -- the same, with the zero address on the right
  unfoldable pub expect_zero : Layer → Text → Getter → Run N (Unit {0})
  unfolding expect
  expect_zero l a g = do v ← read N l a g; expect (to_lower_case v === address_zero)

  unfoldable pub expect_not_zero : Layer → Text → Getter → Run N (Unit {0})
  unfolding expect
  expect_not_zero l a g = do v ← read N l a g; expect (not (to_lower_case v === address_zero))

  unfoldable pub get_address_at_storage_slot : Layer → Text → Text → Run N Text
  unfolding format_address
  get_address_at_storage_slot l a slot = do
    value ← read N l a (Getter.storage_at slot)
    if value === [] then pure [] else ask (λ _. N.checksum (format_address value))

  unfoldable pub get_proxy_admin : Layer → Text → Run N Text
  unfolding get_address_at_storage_slot
  get_proxy_admin l a = do
    admin ←
        get_address_at_storage_slot l a
          (codes "0xb53127684a568b3173ae13b9f8a6016e243e63b6e8ee1178d6a717850b5d6103")
    pure (to_lower_case admin)

  unfoldable pub get_logic_address : Layer → Text → Run N Text
  unfolding get_address_at_storage_slot
  get_logic_address l a = do
    logic ←
        get_address_at_storage_slot l a
          (codes "0x360894a13ba1a3210667c828492db98dca3e2076cc3735a920a3ca505d382bbc")
    pure (to_lower_case logic)

  unfoldable pub get_owner : Layer → Text → Run N Text
  get_owner l a = do owner ← read N l a Getter.owner; pure (to_lower_case owner)

  -- The lowest byte of slot 0 is the version of OpenZeppelin's `Initializable`.
  unfoldable pub is_initialized : Layer → Text → Run N Bool
  is_initialized l a = do
    value ← read N l a (Getter.storage_at (codes "0x0"))
    n ← ask (λ _. N.big_number value)
    pure (n % 256 == 1)

  unfoldable pub is_using_fee_token : Text → Run N Bool
  is_using_fee_token inbox = do
    bridge ← read N parent inbox Getter.bridge
    catch (read N parent bridge Getter.native_token >> pure true) (pure false)

  unfoldable pub get_rollup_owner_from_logs : Text → Text → Run N Text
  unfolding last_of
  get_rollup_owner_from_logs creator inbox = do
    owners ← ask (λ w. N.created_owners creator inbox w.chain)
    elim (last_of owners) [
      | none ↦ throw "Couldn't find any OrbitTokenBridgeCreated events for inbox"
      | some owner ↦ pure owner
    ]

  unfoldable pub get_addresses : Text → Text → Run N Addresses
  unfolding get_rollup_owner_from_logs
  get_addresses rollup creator = do
    inbox ← read N parent rollup Getter.inbox
    multicall ← read N parent creator Getter.l1_multicall
    proxy_admin ← read N parent inbox Getter.proxy_admin
    upgrade_executor ← read N parent rollup Getter.owner
    owner ← get_rollup_owner_from_logs creator inbox
    l1 ← ask (λ w. N.inbox_to_l1_deployment creator inbox w.chain)
    l2 ← ask (λ w. N.inbox_to_l2_deployment creator inbox w.chain)
    pure (record {
      rollup_addresses = record {
        rollup = to_lower_case rollup;
        inbox = to_lower_case inbox;
        rollup_owner = owner;
        proxy_admin = to_lower_case proxy_admin;
        upgrade_executor = to_lower_case upgrade_executor;
        multicall = to_lower_case multicall;
      };
      l1_deployment = l1;
      l2_deployment = l2;
    })
