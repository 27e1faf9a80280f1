-- ===== src/Monitor.antt =====
-- native/discord-monitor.py: the intake of log lines, the queues of one channel and their delivery, the
-- reading of the log, the clusters that are done, the state file and the posts.
pub mod Queue
pub mod Drain
pub mod Post
pub mod Alert
pub mod Intake
pub mod Restart
pub mod Load
pub mod Flush
pub mod State
pub mod Consume
pub mod Poll
