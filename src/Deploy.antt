-- ===== src/Deploy.antt =====
-- The deploy poller, scripts/production_auto_deploy.py: which revision of main it deploys.
pub mod Ci
pub mod Select
pub mod Attempts
pub mod Notices
pub mod Poll
mod Examples
