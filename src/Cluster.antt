-- ===== src/Cluster.antt =====
-- native/session_cluster.py: the session clusters that Discord summaries are built from, their values in
-- the state file, and the payload of a summary.
pub mod Text
pub mod Session
pub mod Manager
pub mod Saved
pub mod Format
pub mod Summary
