-- ===== src/Outbox.antt =====
-- spool.py: the durable outbox in front of the WebDAV backend.
pub mod Disk
pub mod Paths
pub mod Entry
pub mod Persist
pub mod Replay
pub mod Open
pub mod World
pub mod Lookup
mod Examples
pub mod Prepare
pub mod Listing
