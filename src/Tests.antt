-- ===== src/Tests.antt =====
-- Concrete runs of the model, and the theorems applied at them.
pub mod World
mod Sync
mod Decisions
mod Interleaved
mod Tokens
mod Workers
mod Update
mod Revoked
mod Configs
mod Monitors
mod Boots
mod Isolation
mod Asking
mod Calls
mod Chains
mod Web
mod Carrying
mod Forwarded
use rbac_manager.Prelude.{ℕ}
