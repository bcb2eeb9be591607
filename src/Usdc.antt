-- ===== src/Usdc.antt =====
-- The deployment of the USDC bridge: scripts/usdc-bridge-deployment/deployUsdcBridge.ts, a module for
-- each step of its `main`.
pub mod Env
pub mod Linking
pub mod Token
pub mod Gateways
pub mod Registration
pub mod Main
mod Tests
