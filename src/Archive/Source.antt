-- ===== src/Archive/Source.antt =====
-- `archive_path` of native/s3-archive.py: one pass over one source file, through one descriptor. The
-- file may change at any time: each access has its own view of the content.
pub mod Upload
pub mod Types
pub mod Pass
pub mod Tiling
pub mod Outcome
