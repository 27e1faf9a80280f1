-- ===== src/Tests.antt =====
-- Runs of the definitions on concrete inputs, and the theorems at such inputs.
mod Archive
mod Governor
mod Cluster
mod Monitor
mod Intel
mod Broker
mod Intake
mod Python
mod Restart
mod Service
mod HostKey
mod Providers
