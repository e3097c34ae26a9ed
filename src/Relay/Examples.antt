-- ===== src/Relay/Examples.antt =====
-- The relay of services/dozzle/alert_relay.py on concrete inputs: tests, and each theorem at an
-- input that meets its conditions.
mod Data
mod Budgets
mod Deliveries
mod Healths
mod States
mod Documents
mod Requests
mod Messages
mod Alerts
