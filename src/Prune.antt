-- ===== src/Prune.antt =====
-- scripts/image_prune.py. The children are its settings, its command line, the reports of Docker, the
-- wait for the deployment lock, and one run.
pub mod Settings
pub mod Arguments
pub mod Report
pub mod Lock
pub mod Run
mod Examples
