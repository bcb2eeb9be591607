-- ===== src/Upgrades.antt =====
-- The upgrade tasks of tasks/index.ts and tasks/types.ts: logic contracts are deployed and queued, and
-- the queue is then applied to the proxies, with a temporary file that a broken-off run leaves behind.
pub mod Names
pub mod Node
pub mod Files
pub mod Frames
pub mod Signer
pub mod Verify
pub mod Deploy
pub mod Update
pub mod Admin
pub mod Tasks
mod Tests
