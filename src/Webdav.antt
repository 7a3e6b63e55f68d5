-- ===== src/Webdav.antt =====
-- storage.py: the requests of `WebDAVStorageBackend`, and the transaction of `write_prepared`.
pub mod Acts
pub mod Server
pub mod Paths
pub mod Body
pub mod Client
pub mod Upload
pub mod Examples
