-- ===== src/Sdk.antt =====
-- The contracts that the control plane and the sandbox share (packages/gg-sdk/gg/sdk).
pub mod Tasks
pub mod Domain
pub mod Execution
pub mod Publication
pub mod Samples
