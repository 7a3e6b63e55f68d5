-- ===== src/Retention.antt =====
-- Deleting old recordings: storage.py, `WebDAVStorageBackend.retention`.
pub mod Sweep
pub mod Remote
pub mod Local
pub mod Examples
