-- ===== src/Archive.antt =====
-- archive.py: collecting live segments into batches and handing them to the backend.
pub mod Accumulator
pub mod Manager
pub mod Names
pub mod Local
pub mod Examples
