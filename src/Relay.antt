-- ===== src/Relay.antt =====
-- services/dozzle/alert_relay.py: the relay of container events and host alerts.
pub mod Clock
pub mod Settings
pub mod Budget
pub mod Event
pub mod Delivered
pub mod Health
pub mod State
pub mod Render
pub mod Process
pub mod Parse
pub mod Envelope
pub mod Beszel
pub mod Server
mod Examples
