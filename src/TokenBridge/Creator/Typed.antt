-- ===== src/TokenBridge/Creator/Typed.antt =====
-- The transactions of `deployL1TokenBridgeCreator` are calls that the contracts have.
pub mod Parts
pub mod Submissions
use arb_bridge_peripherals.Base.{
  ◌≡◌, refl, inl, inr, List, ◌∷◌, some, codes, length, Script, Post, Post-weaken, All-map,
  All-append-left, pure, for_each, ◌>>◌, true, false, when, effects, ok,
}
use arb_bridge_peripherals.Chain.Types.{Tx, Calldata, L2Templates}
use arb_bridge_peripherals.Chain.{deploy, send, submit}
use arb_bridge_peripherals.Chain.Typed.{Fact, Takes, initializer_arity, l2_facts}
use arb_bridge_peripherals.Chain.Typed.Steps.{
  Grows-refl, Grows-trans, Has-Grows, Adds, Adds-send, Adds-submit,
}
use arb_bridge_peripherals.TokenBridge.Templates.{
  address_dead, one_padded, deploy_initialized, deploy_l1_templates, deploy_l2_templates,
}
use arb_bridge_peripherals.TokenBridge.Creator.Verification.{
  Deployed, submit_all, creator_contracts,
}
use arb_bridge_peripherals.TokenBridge.Creator.{deploy_creator}
use Submissions.{Complete}
