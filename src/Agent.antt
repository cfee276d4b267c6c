-- ===== src/Agent.antt =====
-- The agent that runs on the device: agent/src.
pub mod Auth
pub mod ChargePolicy
pub mod Lan
pub mod Router
pub mod UciTransaction
pub mod Validate
pub mod CsvUtils
pub mod Cache
pub mod EventBus
