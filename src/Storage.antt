-- ===== src/Storage.antt =====
-- backend/gg/runtime/storage.py
pub mod Truncation
pub mod Retention
pub mod Manifest
