-- ===== src/Archive.antt =====
-- native/s3-archive.py: the content-addressed archive of the sensor's evidence log, from the state file
-- to a run over all the files.
pub mod Result
pub mod Records
pub mod Reader
pub mod Client
pub mod Address
pub mod Verify
pub mod Put
pub mod Anchor
pub mod Lineage
pub mod Source
pub mod Load
pub mod Run
