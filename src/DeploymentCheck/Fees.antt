-- ===== src/DeploymentCheck/Fees.antt =====
-- The fee token as the test sees it, and as the scripts that deploy the bridge do.
use arb_bridge_peripherals.Base.{
  ◌≡◌, refl, ◌≢◌, Bool, true, false, not, Option, none, some, Text, ◌===◌, ===_sound, ===_refl,
  Result, ok, err, pure, catch, ◌>>◌, effects, arith, Bool-cases, inl, inr, ap,
}
use arb_bridge_peripherals.Chain.{Network, World, read}
use arb_bridge_peripherals.Chain.Types.{parent, Getter}
use arb_bridge_peripherals.Chain.FeeToken.{address_zero, get_fee_token}
use arb_bridge_peripherals.DeploymentCheck.{is_using_fee_token}

abbrev pub is_token : Result Text → Result Bool
is_token (ok t) = ok (not (t === address_zero))
is_token (err e) = err e

token-is_not_zero : (t : Text) → some t ≢ some address_zero → (t === address_zero) ≡ false
token-is_not_zero t h = elim (Bool-cases (t === address_zero)) [
  | inl b ↦ absurd (h (ap some (===_sound t address_zero b)))
  | inr b ↦ b
]

module _ (N : Network) (inbox : Text) (w : World N) where
  native :
      (bridge : Text) (o : Option Text)
      → N.read parent bridge Getter.native_token w.chain ≡ o
      → o ≢ some address_zero
      → (catch (read N parent bridge Getter.native_token >> pure true) (pure false) w).0
        ≡ is_token (catch (read N parent bridge Getter.native_token) (pure address_zero) w).0
  unfolding effects
  native bridge none e h = ground (arith, e, ===_refl address_zero)
  native bridge (some t) e h = ground (arith, e, token-is_not_zero t h)

-- Unless the bridge behind an inbox names the zero address as its token, the test takes the chain for
-- one with a fee token exactly when `_getFeeToken` of the deployment scripts finds an address other than
-- the zero address, and fails exactly when that call fails.
pub is_using_fee_token-get_fee_token :
    (N : Network) (inbox : Text) (w : World N)
    → ((bridge : Text)
        → N.read parent inbox Getter.bridge w.chain ≡ some bridge
        → N.read parent bridge Getter.native_token w.chain ≢ some address_zero)
    → (is_using_fee_token N inbox w).0 ≡ is_token (get_fee_token N inbox w).0
unfolding is_using_fee_token get_fee_token effects
is_using_fee_token-get_fee_token N inbox w nonzero =
    from_bridge (N.read parent inbox Getter.bridge w.chain) refl
  where
    from_bridge :
        (b : Option Text)
        → N.read parent inbox Getter.bridge w.chain ≡ b
        → (is_using_fee_token N inbox w).0 ≡ is_token (get_fee_token N inbox w).0
    from_bridge none e = ground (arith, e)
    from_bridge (some bridge) e = ground (
      arith,
      e,
      native N inbox w bridge (N.read parent bridge Getter.native_token w.chain) refl
          (nonzero bridge e),
    )
