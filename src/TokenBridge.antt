-- ===== src/TokenBridge.antt =====
-- The token bridge of a rollup: scripts/atomicTokenBridgeDeployer.ts and the two scripts of
-- scripts/deployment/ that run its functions.
pub mod Gas
pub mod Create
pub mod Templates
pub mod Creator
pub mod Register
pub mod Target
mod Tests
