-- ===== src/Ledger.antt =====
-- backend/gg/runtime/ledger.py
pub mod Rows
pub mod Tasks
pub mod Reservations
pub mod Lifecycle
pub mod Sandboxes
pub mod Publications
pub mod Supervisions
pub mod Messages
pub mod Results
pub mod Events
pub mod Retention
pub mod Soundness
pub mod Samples
pub mod Steps
