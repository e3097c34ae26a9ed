-- ===== src/Restore.antt =====
-- services/immich/classify_restore.py: whether a clean Immich deployment needs its database restored.
pub mod Refusal
pub mod Tree
pub mod Backup
pub mod Classify
mod Examples
